-- ===== src/Client/Exits.antt =====
-- vpn_client/main.go: how `main` ends, and what it leaves.
use Prim.Native.String.{String}
use masque_vpn.Prelude.{
  ◌≡◌, ◌≢◌, refl, ◌⊎◌, inl, inr, Bool, true, false, Option, none, some, Result, ok, err,
  if◌then◌else◌,
}
use masque_vpn.Configuration.{ClientConfig}
use masque_vpn.Logging.{init_logger}
use masque_vpn.Client.Tls.{missing_configuration}
use masque_vpn.Client.Establish.{nothing_open, establish_and_configure}
use masque_vpn.Client.Lifecycle.{ClientMetrics, run_client}
use masque_vpn.Client.Ending.{IsIdle, Released, Counted, run_client_lem}
use masque_vpn.Client.Main.{
  World, returns, Ended, before_logger, fatal_missing_configuration, after_run, after_logger,
  after_decode, client_main,
}

module _ {L : Type 0} (w : World L) (m : ClientMetrics) where
  -- Nothing was counted, and `main` did not return.
  abbrev pub EndsEarly : Ended → Type 0
  EndsEarly e = (e.exit ≢ returns) × (e.metrics ≡ m) × (e.resources ≡ nothing_open)

  -- The configuration was complete, and the connection was counted as it went.
  abbrev pub EndsAfterRun : Ended → Type 0
  EndsAfterRun e =
      (c : ClientConfig) × (w.decodes ≡ ok c)
      × (missing_configuration c ≡ false)
      × (e.exit ≡ returns)
      × (e.profile_stopped ≡ e.profile_started)
      × Counted (establish_and_configure w.files w.network w.platform w.texts w.os c) w.ends
          w.duration m e.metrics

  abbrev pub EndsWell : Ended → Type 0
  EndsWell e = Released (e.metrics, e.resources) × (EndsEarly e ⊎ EndsAfterRun e)

  module _ (idle : IsIdle m) where
    complete-EndsWell :
        (c : ClientConfig) (b : Bool)
        → w.decodes ≡ ok c
        → missing_configuration c ≡ b
        → EndsWell (
            if b
            then record (before_logger fatal_missing_configuration m) {
              serves_metrics = true;
              profile_started = w.perf_profile;
            }
            else after_run w
                (run_client w.files w.network w.platform w.texts w.os c w.ends w.duration m))
    complete-EndsWell c true d e = ((idle, refl, refl), inl (λ x. cc, refl, refl))
    complete-EndsWell c false d e =
        let (released, counted) =
          run_client_lem w.files w.network w.platform w.texts w.os c w.ends w.duration m idle in
        (released, inr (c, d, e, refl, refl, counted))

    after_logger-EndsWell :
        (c : ClientConfig) (o : Option String) → w.decodes ≡ ok c → EndsWell (after_logger w c m o)
    after_logger-EndsWell c (some e) d = ((idle, refl, refl), inl (λ x. cc, refl, refl))
    after_logger-EndsWell c none d = complete-EndsWell c (missing_configuration c) d refl

    after_decode-EndsWell :
        (r : Result String ClientConfig) → w.decodes ≡ r → EndsWell (after_decode w m r)
    after_decode-EndsWell (err e) d = ((idle, refl, refl), inl (λ x. cc, refl, refl))
    after_decode-EndsWell (ok c) d =
        after_logger-EndsWell c (init_logger w.zap w.production c.log_level).1 d

-- However `main` ends, whatever its environment answers: if it began with its gauges at 0 they are 0
-- again, and no stream and no device is open. Either it did not return, counted nothing and opened
-- nothing, or it returned after a complete configuration, with a profile that was started stopped, and
-- one error was counted if the connection could not be made or if a proxy ended it, even without an
-- error; its duration was recorded exactly if it was made.
pub client_main_lem :
    {L : Type 0} → (w : World L) (m : ClientMetrics) → IsIdle m → EndsWell w m (client_main w m)
unfolding client_main
client_main_lem w m idle = after_decode-EndsWell w m idle w.decodes refl
