-- ===== src/Runtime/Stuck.antt =====
-- Restarts that cannot help (core/runtime.go).
use chukrun.Base.{◌≡◌, refl, sym, ◌∙◌, ap, ◌≢◌, inl, inr, true, false, List, none, some, Bool-cases}
use chukrun.Config.{Machine, load_config}
use chukrun.Errors.{GoError, nil, platform_error, new_error, internal, is_nil, nil_cases}
use chukrun.Events.Bus.{Bus, value}
use chukrun.Execution.Types.{null, other_value}
use chukrun.Lifecycle.{
  LifecycleManager, uninitialized, booting, draining, stopped, failed, same_state, valid_target,
  transition, check_restart_cooldown,
}
use chukrun.Lifecycle.Graph.{Edge-valid_target, transition_cases}
use chukrun.Telemetry.Logger.{Texts}
use chukrun.Runtime.Defs.{Engine, CoreRuntime, Host, returned, panicked, and_then}
use chukrun.Runtime.Boot.{
  already_initialized, not_failed, move_to, fail, stop_engine, load_and_assemble, replace_parts,
  keep_parts, initialize, restart,
}
use chukrun.Runtime.Serve.{Wakeup, shutdown}
use chukrun.Runtime.Steps.{nil_pointer, moves, fails, stop_halted, stop_open, closed_channel}
use chukrun.Runtime.Quiet.{IsQuiet, announce_quiet, announce_nil}
use chukrun.Runtime.Restarting.{check_restart_cooldown-state}

module _ {P S L T : Type 0} (m : Machine) (t : Texts) where
  -- The load of the configuration fails.
  fails_to_load :
      (h : Host) (parts : CoreRuntime P S L T → CoreRuntime P S L T) (r : CoreRuntime P S L T)
      (err : GoError)
      → load_config m r.config_file r.overrides ≡ (none, err)
      → err ≢ nil
      → load_and_assemble m t h parts r ≡ fail (h.time 1) err r
  unfolding load_and_assemble
  fails_to_load h parts r err e bad = rw e (elim (nil_cases err) [
    | inl (fine, none_) ↦ absurd (bad none_)
    | inr (some_text, bad') ↦ rw some_text refl
  ])

  -- A restart in FAILED without a bus.
  panics_without_bus :
      (h : Host) (r : CoreRuntime P S L T)
      → r.lifecycle.state_val ≡ failed
      → r.events ≡ none
      → (r' : CoreRuntime P S L T) × (restart m t h r ≡ panicked nil_pointer r')
        × (r'.lifecycle.state_val ≡ failed)
        × (r'.events ≡ none)
  unfolding restart
  panics_without_bus h r at missing =
      let (lm, err) = check_restart_cooldown (h.time 0) r.lifecycle in
      let checked : CoreRuntime P S L T = record r { lifecycle = lm } in
      let here : checked.lifecycle.state_val ≡ failed =
        check_restart_cooldown-state (h.time 0) r.lifecycle ∙ at in
      let is_failed : same_state r.lifecycle.state_val failed ≡ true = rw at refl in
      let payload = value (other_value "reason: cooldown_active") in
      elim (Bool-cases (is_nil err)) [
        | inl fine ↦ (
          checked,
          rw
              (
                is_failed,
                fine,
                announce_nil h 0 "runtime.restart_requested" (value null) checked missing,
              )
              refl,
          here,
          missing,
        )
        | inr early ↦ (
          checked,
          rw (is_failed, early, announce_nil h 0 "runtime.restart_rejected" payload checked missing)
              refl,
          here,
          missing,
        )
      ]

  -- When `Initialize` cannot load its configuration, it returns the error and the runtime is FAILED;
  -- and every `Restart` of it panics, whenever it comes, and leaves it FAILED: no bus was made yet.
  pub failed_load_panics :
      (h : Host) (r : CoreRuntime P S L T) (err : GoError)
      → r.lifecycle.state_val ≡ uninitialized
      → r.events ≡ none
      → load_config m r.config_file r.overrides ≡ (none, err)
      → err ≢ nil
      → (r1 : CoreRuntime P S L T) × (initialize m t h r ≡ returned err r1)
        × (r1.lifecycle.state_val ≡ failed)
        × ((h' : Host)
            → (r2 : CoreRuntime P S L T) × (restart m t h' r1 ≡ panicked nil_pointer r2)
              × (r2.lifecycle.state_val ≡ failed)
              × (r2.events ≡ none))
  unfolding initialize valid_target
  failed_load_panics h r err at missing e bad =
      let (lm, here, moved) = moves (h.time 0) uninitialized booting r at refl refl in
      let booted : CoreRuntime P S L T = record r { lifecycle = lm } in
      let r1 : CoreRuntime P S L T = record booted {
        lifecycle = (transition (h.time 1) failed lm).0;
      } in
      let fresh : same_state r.lifecycle.state_val uninitialized ≡ true = rw at refl in
      let there = fails (h.time 1) booted here in
      (
        r1,
        rw (fresh, moved) (fails_to_load h keep_parts booted err e bad),
        there,
        λ h'. panics_without_bus h' r1 there missing,
      )

  -- The parts of a restart that is let through, up to the shutdown of the engine.
  let_through :
      (h : Host) (r : CoreRuntime P S L T) (bus : Bus)
      → r.lifecycle.state_val ≡ failed
      → r.events ≡ some bus
      → IsQuiet bus
      → (check_restart_cooldown (h.time 0) r.lifecycle).1 ≡ nil
      → (lm : LifecycleManager) × (lm.state_val ≡ booting)
        × (restart m t h r
            ≡ and_then
                (stop_engine (record r { lifecycle = lm }))
                (load_and_assemble m t h replace_parts))
  unfolding restart valid_target
  let_through h r bus at publishes quiet late =
      let lm = (check_restart_cooldown (h.time 0) r.lifecycle).0 in
      let checked : CoreRuntime P S L T = record r { lifecycle = lm } in
      let here : checked.lifecycle.state_val ≡ failed =
        check_restart_cooldown-state (h.time 0) r.lifecycle ∙ at in
      let is_failed : same_state r.lifecycle.state_val failed ≡ true = rw at refl in
      let (booted, there, moved) = moves (h.time 0) failed booting checked here refl refl in
      (
        booted,
        there,
        rw
            (
              is_failed,
              late,
              announce_quiet h 0 "runtime.restart_requested" (value null) checked bus publishes
                  quiet,
              moved,
            )
            refl,
      )

  -- A runtime whose engine was halted panics when it is restarted, and is left in BOOTING.
  panics_when_halted :
      (h : Host) (r : CoreRuntime P S L T) (bus : Bus) (e : Engine)
      → r.lifecycle.state_val ≡ failed
      → r.events ≡ some bus
      → IsQuiet bus
      → (check_restart_cooldown (h.time 0) r.lifecycle).1 ≡ nil
      → r.execution ≡ some e
      → e.loop_stopped ≡ true
      → (r' : CoreRuntime P S L T) × (restart m t h r ≡ panicked closed_channel r')
        × (r'.lifecycle.state_val ≡ booting)
  panics_when_halted h r bus e at publishes quiet late there over =
      let (lm, here, starts) = let_through h r bus at publishes quiet late in
      (
        record r { lifecycle = lm },
        rw (starts, stop_halted (record r { lifecycle = lm }) e there over) refl,
        here,
      )

  -- A FAILED runtime whose engine runs, to whose bus nothing subscribed, and whose configuration
  -- cannot be loaded: a `Restart` that the cooldown lets through stops the engine and returns the
  -- error, and the runtime is FAILED again; the next one that the cooldown lets through panics,
  -- since it closes the engine's channel again, and leaves the runtime in BOOTING.
  pub second_restart_panics :
      (h : Host) (r : CoreRuntime P S L T) (bus : Bus) (e : Engine) (err : GoError)
      → r.lifecycle.state_val ≡ failed
      → r.events ≡ some bus
      → IsQuiet bus
      → r.execution ≡ some e
      → e.loop_stopped ≡ false
      → load_config m r.config_file r.overrides ≡ (none, err)
      → err ≢ nil
      → (check_restart_cooldown (h.time 0) r.lifecycle).1 ≡ nil
      → (r1 : CoreRuntime P S L T) × (restart m t h r ≡ returned err r1)
        × (r1.lifecycle.state_val ≡ failed)
        × ((h' : Host)
            → (check_restart_cooldown (h'.time 0) r1.lifecycle).1 ≡ nil
            → (r2 : CoreRuntime P S L T) × (restart m t h' r1 ≡ panicked closed_channel r2)
              × (r2.lifecycle.state_val ≡ booting))
  second_restart_panics h r bus e err at publishes quiet there going bad_config bad late =
      let (lm, here, starts) = let_through h r bus at publishes quiet late in
      let r0 : CoreRuntime P S L T = record r {
        lifecycle = lm;
        execution = some (record e { loop_stopped = true });
      } in
      let r1 : CoreRuntime P S L T = record r0 {
        lifecycle = (transition (h.time 1) failed lm).0;
      } in
      let failed_again = fails (h.time 1) r0 here in
      (
        r1,
        rw (starts, stop_open (record r { lifecycle = lm }) e there going)
            (fails_to_load h replace_parts r0 err bad_config bad),
        failed_again,
        λ h' late'.
            panics_when_halted h' r1 bus (record e { loop_stopped = true }) failed_again publishes
              quiet late' refl refl,
      )

  shutdown_refused :
      (h : Host) (wakeups : List Wakeup) (r : CoreRuntime P S L T)
      → r.lifecycle.state_val ≡ booting
      → (err : GoError) × (shutdown h wakeups r ≡ returned err r) × (err ≢ nil)
  unfolding shutdown move_to valid_target
  shutdown_refused h wakeups r at =
      let live : same_state r.lifecycle.state_val stopped ≡ false = rw at refl in
      elim (transition_cases (h.time 0) draining r.lifecycle) [
        | inl (there, e) ↦ absurd (boots_drain (sym at ∙ there))
        | inr (inl (edge, entered, e)) ↦
            absurd (no_edge (sym (ap (λ s. valid_target s draining) at) ∙ Edge-valid_target edge))
        | inr (inr (away, none_, same, (message, e))) ↦
            (platform_error internal message false nil, rw (live, same, e) refl, λ z. cc)
      ]
    where
      boots_drain : booting ≢ draining
      boots_drain e = cc

      no_edge : false ≢ true
      no_edge e = cc

  -- In BOOTING every call refuses and changes nothing, so a runtime that a panic left there can be
  -- neither initialized nor restarted nor shut down.
  pub booting_is_stuck :
      (h : Host) (wakeups : List Wakeup) (r : CoreRuntime P S L T)
      → r.lifecycle.state_val ≡ booting
      → (a b c : GoError) × (initialize m t h r ≡ returned a r)
        × (restart m t h r ≡ returned b r)
        × (shutdown h wakeups r ≡ returned c r)
        × (a ≢ nil)
        × (b ≢ nil)
        × (c ≢ nil)
  unfolding initialize restart valid_target
  booting_is_stuck h wakeups r at =
      let not_fresh : same_state r.lifecycle.state_val uninitialized ≡ false = rw at refl in
      let sound : same_state r.lifecycle.state_val failed ≡ false = rw at refl in
      let (c, refuses, bad) = shutdown_refused h wakeups r at in
      (
        new_error internal already_initialized false nil,
        new_error internal not_failed false nil,
        c,
        rw not_fresh refl,
        rw sound refl,
        refuses,
        (λ z. cc),
        (λ z. cc),
        bad,
      )
