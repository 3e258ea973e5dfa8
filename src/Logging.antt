-- ===== src/Logging.antt =====
-- vpn_server/main.go and vpn_client/main.go: `initLogger`, which is the same in both but for the
-- server's `ReplaceGlobals`. The zap package is a parameter, with its levels as the type `L`.
use Prim.Native.String.{String}
use masque_vpn.Prelude.{Bool, true, false, Option, none, some}

pub record LoggerSettings (L : Type 0) : Type 0 where
  -- `NewProductionConfig`, or else `NewDevelopmentConfig` with coloured levels.
  pub production : Bool
  pub colored_levels : Bool
  pub level : L
  pub iso8601_times : Bool

-- `ParseLevel`, `InfoLevel`, and the error of `Build`.
pub record Zap (L : Type 0) : Type 0 where
  pub parse_level : String → Option L
  pub info_level : L
  pub build : LoggerSettings L → Option String

module _ {L : Type 0} (zap : Zap L) where
  abbrev pub level_or_info : Option L → L
  level_or_info none = zap.info_level
  level_or_info (some level) = level

  abbrev pub preset : Bool → L → LoggerSettings L
  preset true level = record {
    production = true;
    colored_levels = false;
    level = level;
    iso8601_times = true;
  }
  preset false level = record {
    production = false;
    colored_levels = true;
    level = level;
    iso8601_times = true;
  }

  -- The settings with which the logger is built, and the error if it is not. The first argument
  -- says whether ENVIRONMENT is "production".
  unfoldable pub init_logger : Bool → String → LoggerSettings L × Option String
  init_logger production log_level =
      let settings = preset production (level_or_info (zap.parse_level log_level)) in
      (settings, zap.build settings)
