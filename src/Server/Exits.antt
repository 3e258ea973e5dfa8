-- ===== src/Server/Exits.antt =====
-- vpn_server/main.go: how `main` ends, and what it leaves.
use masque_vpn.Prelude.{
  ℕ, ◌+◌, ◌≡◌, refl, sym, ap, subst, ◌∙◌, Bool, true, false, none, some, Result, ok, err, List, [],
  ◌∷◌, ◌++◌, append-nil, arith, if◌then◌else◌,
}
use masque_vpn.Configuration.{ServerConfig}
use masque_vpn.Logging.{init_logger}
use masque_vpn.Ip.Addr.{Prefix, masked}
use masque_vpn.Tun.Device.{Effect}
use masque_vpn.Tun.Opening.{open_after}
use masque_vpn.Server.Start.{missing_configuration, NewError, Running, new_server}
use masque_vpn.Server.Hosting.{devices, IsServable, new_server_lem}
use masque_vpn.Server.Main.{
  World, Exit, fatal_missing_configuration, fatal_new, Happening, profile_starts, profile_stops,
  logger_syncs, signals_stop, does, all_done, with_deferred, run_new, after_new, after_logger,
  after_decode, profiled, server_main,
}

abbrev pub effects_in : List Happening → List Effect
effects_in [] = []
effects_in (profile_starts ∷ hs) = effects_in hs
effects_in (profile_stops ∷ hs) = effects_in hs
effects_in (logger_syncs ∷ hs) = effects_in hs
effects_in (signals_stop ∷ hs) = effects_in hs
effects_in (does e ∷ hs) = e ∷ effects_in hs

-- How often a deferred call ran.
abbrev pub stops_in : List Happening → ℕ
stops_in [] = 0
stops_in (profile_starts ∷ hs) = stops_in hs
stops_in (profile_stops ∷ hs) = 1 + stops_in hs
stops_in (logger_syncs ∷ hs) = stops_in hs
stops_in (signals_stop ∷ hs) = stops_in hs
stops_in (does e ∷ hs) = stops_in hs

abbrev pub syncs_in : List Happening → ℕ
syncs_in [] = 0
syncs_in (profile_starts ∷ hs) = syncs_in hs
syncs_in (profile_stops ∷ hs) = syncs_in hs
syncs_in (logger_syncs ∷ hs) = 1 + syncs_in hs
syncs_in (signals_stop ∷ hs) = syncs_in hs
syncs_in (does e ∷ hs) = syncs_in hs

abbrev pub profiles : Bool → ℕ
profiles true = 1
profiles false = 0

effects_in-append :
    (hs ks : List Happening) → effects_in (hs ++ ks) ≡ effects_in hs ++ effects_in ks
effects_in-append [] ks = refl
effects_in-append (profile_starts ∷ hs) ks = effects_in-append hs ks
effects_in-append (profile_stops ∷ hs) ks = effects_in-append hs ks
effects_in-append (logger_syncs ∷ hs) ks = effects_in-append hs ks
effects_in-append (signals_stop ∷ hs) ks = effects_in-append hs ks
effects_in-append (does e ∷ hs) ks = ap (◌∷◌ e) (effects_in-append hs ks)

stops_in-append : (hs ks : List Happening) → stops_in (hs ++ ks) ≡ stops_in hs + stops_in ks
stops_in-append [] ks = omega arith
stops_in-append (profile_starts ∷ hs) ks = omega (arith, stops_in-append hs ks)
stops_in-append (profile_stops ∷ hs) ks = omega (arith, stops_in-append hs ks)
stops_in-append (logger_syncs ∷ hs) ks = omega (arith, stops_in-append hs ks)
stops_in-append (signals_stop ∷ hs) ks = omega (arith, stops_in-append hs ks)
stops_in-append (does e ∷ hs) ks = omega (arith, stops_in-append hs ks)

syncs_in-append : (hs ks : List Happening) → syncs_in (hs ++ ks) ≡ syncs_in hs + syncs_in ks
syncs_in-append [] ks = omega arith
syncs_in-append (profile_starts ∷ hs) ks = omega (arith, syncs_in-append hs ks)
syncs_in-append (profile_stops ∷ hs) ks = omega (arith, syncs_in-append hs ks)
syncs_in-append (logger_syncs ∷ hs) ks = omega (arith, syncs_in-append hs ks)
syncs_in-append (signals_stop ∷ hs) ks = omega (arith, syncs_in-append hs ks)
syncs_in-append (does e ∷ hs) ks = omega (arith, syncs_in-append hs ks)

effects_in-done : (effects : List Effect) → effects_in (all_done effects) ≡ effects
effects_in-done [] = refl
effects_in-done (e ∷ effects) = ap (◌∷◌ e) (effects_in-done effects)

no_calls :
    (effects : List Effect) → (stops_in (all_done effects) ≡ 0) × (syncs_in (all_done effects) ≡ 0)
no_calls [] = (refl, refl)
no_calls (e ∷ effects) = no_calls effects

module _ {L C P : Type 0} (w : World L C P) (c : ServerConfig) where
  -- How `main` ends after `New`: with its error, and nothing that was deferred, or with what `Run`
  -- returns, and all of it.
  abbrev pub EndsAs : Result NewError Running → Exit → List Happening → Type 0
  EndsAs (err e) exit hs = (exit ≡ fatal_new e) × (syncs_in hs ≡ 0) × (stops_in hs ≡ 0)
  EndsAs (ok r) exit hs =
      (exit ≡ run_new w c) × (syncs_in hs ≡ 1) × (stops_in hs ≡ profiles w.perf_profile)

  abbrev pub Leaves : Result NewError Running → List Effect → Exit × List Happening → Type 0
  Leaves r effects (exit, hs) = (effects_in hs ≡ effects) × EndsAs r exit hs

  -- A part that ran to its end with these counts goes on with a deferred call.
  deferred_counts :
      (calls hs : List Happening)
      → (effects_in (hs ++ calls) ≡ effects_in hs ++ effects_in calls)
        × (syncs_in (hs ++ calls) ≡ syncs_in hs + syncs_in calls)
        × (stops_in (hs ++ calls) ≡ stops_in hs + stops_in calls)
  deferred_counts calls hs =
      (effects_in-append hs calls, syncs_in-append hs calls, stops_in-append hs calls)

  -- The end without the profile.
  abbrev Plain : Result NewError Running → List Effect → Exit × List Happening → Type 0
  Plain (err e) effects (exit, hs) =
      (exit ≡ fatal_new e) × (effects_in hs ≡ effects) × (syncs_in hs ≡ 0) × (stops_in hs ≡ 0)
  Plain (ok r) effects (exit, hs) =
      (exit ≡ run_new w c) × (effects_in hs ≡ effects) × (syncs_in hs ≡ 1) × (stops_in hs ≡ 0)

  logged-Plain :
      (r : Result NewError Running) (effects : List Effect)
      → Plain r effects (with_deferred (logger_syncs ∷ []) (after_new w c (some r, effects)))
  logged-Plain (err e) effects =
      (refl, effects_in-done effects, (no_calls effects).1, (no_calls effects).0)
  logged-Plain (ok r) effects =
      let (es, ys, ps) = deferred_counts (signals_stop ∷ []) (all_done effects) in
      let (fs, zs, qs) =
        deferred_counts (logger_syncs ∷ []) (all_done effects ++ signals_stop ∷ []) in
      let (none_stop, none_sync) = no_calls effects in
      (
        refl,
        fs ∙ append-nil _ ∙ es ∙ append-nil _ ∙ effects_in-done effects,
        omega arith,
        omega arith,
      )

  profiled-Leaves :
      (r : Result NewError Running) (effects : List Effect) (ended : Exit × List Happening)
      → Plain r effects ended
      → Leaves r effects (profiled w w.perf_profile ended)
  profiled-Leaves r effects ended plain = go w.perf_profile refl r plain
    where
      go :
          (b : Bool)
          → w.perf_profile ≡ b
          → (r : Result NewError Running) → Plain r effects ended
          → Leaves r effects (profiled w b ended)
      go false off (err e) (x, es, ys, ps) = (es, (x, ys, ps))
      go false off (ok s) (x, es, ys, ps) = (es, (x, ys, ps ∙ sym (ap profiles off)))
      go true on (err e) (x, es, ys, ps) =
          subst
            (λ y.
              Leaves (err e) effects
                (with_deferred (profile_stops ∷ []) (y, profile_starts ∷ ended.1)))
            (sym x) (es, (refl, ys, ps))
      go true on (ok s) (x, es, ys, ps) =
          let (fs, zs, qs) = deferred_counts (profile_stops ∷ []) (profile_starts ∷ ended.1) in
          subst
            (λ y.
              Leaves (ok s) effects
                (with_deferred (profile_stops ∷ []) (y, profile_starts ∷ ended.1)))
            (sym x)
            (fs ∙ append-nil _ ∙ es, (refl, omega arith, omega arith ∙ sym (ap profiles on)))

-- With a configuration that can be read and has the required values, a logger that can be built, and
-- a network whose pool can be made: `main` ends, with the error of `New` or with what `Run` returns.
-- The devices that are then open are those that `New` had opened, for `Close` is never called. After
-- `New` failed the logger is not synced and a profile that was started is not stopped.
pub server_main_lem :
    {L C P : Type 0}
    → (w : World L C P) (fuel : ℕ) (c : ServerConfig) (p : Prefix) → w.decodes ≡ ok c
    → (init_logger w.zap w.production c.log_level).1 ≡ none
    → missing_configuration c ≡ false
    → w.parse_prefix c.assign_cidr ≡ some p
    → IsServable fuel (masked p)
    → (r : Result NewError Running) × ((new_server w.parse_prefix fuel w.platform w.texts w.os c).0
        ≡ some r)
      × (open_after [] (effects_in (server_main w fuel).1) ≡ devices r)
      × EndsAs w c r (server_main w fuel).0 (server_main w fuel).1
unfolding server_main
server_main_lem w fuel c p decoded logs complete parses able =
    let ((r, made, left_open, fresh), closes) =
      new_server_lem w.parse_prefix fuel w.platform w.texts w.os c p parses able in
    let effects = (new_server w.parse_prefix fuel w.platform w.texts w.os c).1 in
    let started : new_server w.parse_prefix fuel w.platform w.texts w.os c ≡ (some r, effects) =
      (λ i. (made i, effects)) in
    let reached : server_main w fuel
        ≡ profiled w w.perf_profile
            (with_deferred (logger_syncs ∷ []) (after_new w c (some r, effects))) =
      ap (λ d. profiled w w.perf_profile (after_decode w fuel d)) decoded
      ∙ ap (λ e. profiled w w.perf_profile (after_logger w fuel c e)) logs
      ∙ ap
          (λ b. profiled w w.perf_profile (
            with_deferred (logger_syncs ∷ []) (
              if b
              then (fatal_missing_configuration, [])
              else after_new w c (new_server w.parse_prefix fuel w.platform w.texts w.os c))))
          complete
      ∙ ap (λ s. profiled w w.perf_profile (with_deferred (logger_syncs ∷ []) (after_new w c s)))
          started in
    let leaves =
      subst (Leaves w c r effects) (sym reached)
        (profiled-Leaves w c r effects _ (logged-Plain w c r effects)) in
    (r, made, ap (open_after []) leaves.0 ∙ left_open, leaves.1)
