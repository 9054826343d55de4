-- ===== src/Runtime/Restarting.antt =====
-- `Restart` (core/runtime.go), in each of its cases.
use chukrun.Base.{
  ℕ, ◌≡◌, refl, sym, ap, ◌∙◌, ◌≢◌, inl, inr, String, true, false, not, ◌&&◌, ◌==◌, none, some,
  Bool-cases, Option-cases,
}
use chukrun.Base.Int.{pos, ltb_ℤ, ◌-ℤ◌}
use chukrun.Config.{Machine}
use chukrun.Errors.{GoError, nil, is_nil}
use chukrun.Events.Bus.{Bus, value}
use chukrun.Execution.Types.{null, other_value}
use chukrun.Lifecycle.{
  LifecycleManager, booting, failed, same_state, valid_target, check_restart_cooldown, cooldown,
}
use chukrun.Lifecycle.Health.{Waited, check_restart_cases}
use chukrun.Lifecycle.Graph.{same_state_eq, same_state_ne}
use chukrun.Telemetry.Logger.{Texts}
use chukrun.Runtime.Defs.{Engine, CoreRuntime, Host, Outcome, returned, panicked, and_then}
use chukrun.Runtime.Boot.{stop_engine, load_and_assemble, replace_parts, restart}
use chukrun.Runtime.Steps.{halted, moves, stop_engine_cases}
use chukrun.Runtime.Quiet.{IsQuiet, announce_quiet, announce_nil}
use chukrun.Runtime.Booting.{IsSilent, Booted, replaces, load_and_assemble-Booted}

pub check_restart_cooldown-state :
    (now : ℕ) (lm : LifecycleManager) → (check_restart_cooldown now lm).0.state_val ≡ lm.state_val
unfolding check_restart_cooldown
check_restart_cooldown-state now lm =
    elim (Bool-cases
      (not (lm.last_restart == 0) && ltb_ℤ (pos now -ℤ pos lm.last_restart) (cooldown lm))) [
        | inl early ↦ rw early refl
        | inr late ↦ rw late refl
      ]

is_nil-ne : (err : GoError) → is_nil err ≡ false → err ≢ nil
is_nil-ne err e n = cc (ap is_nil n)

module _ {P S L T : Type 0} where
  -- The clock reads `now`.
  pub data Restarted (m : Machine) (now : ℕ) (r : CoreRuntime P S L T)
      : Outcome (CoreRuntime P S L T) → Type 0 where
    not_failed :
        (err : GoError)
        → err ≢ nil
        → r.lifecycle.state_val ≢ failed
        → Restarted m now r (returned err r)
    no_bus :
        (why : String) (r' : CoreRuntime P S L T)
        → r.lifecycle.state_val ≡ failed
        → r.events ≡ none
        → r'.lifecycle.state_val ≡ failed
        → r'.events ≡ none
        → Restarted m now r (panicked why r')
    cooling :
        (err : GoError) (r' : CoreRuntime P S L T)
        → err ≢ nil
        → r.lifecycle.state_val ≡ failed
        → ¬ Waited now r.lifecycle
        → r'.lifecycle ≡ r.lifecycle
        → r'.execution ≡ r.execution
        → r'.events ≡ r.events
        → Restarted m now r (returned err r')
    closed_twice :
        (why : String) (r' : CoreRuntime P S L T) (e : Engine)
        → r.lifecycle.state_val ≡ failed
        → Waited now r.lifecycle
        → r.execution ≡ some e
        → e.loop_stopped ≡ true
        → r'.lifecycle.state_val ≡ booting
        → r'.events ≡ r.events
        → Restarted m now r (panicked why r')
    boots :
        (out : Outcome (CoreRuntime P S L T))
        → r.lifecycle.state_val ≡ failed
        → Waited now r.lifecycle
        → Booted m (halted r.execution) out
        → Restarted m now r out

  module _ (m : Machine) (t : Texts) (h : Host) where
    -- In BOOTING, with the bus quiet.
    stops_and_boots :
        (r checked : CoreRuntime P S L T) (bus : Bus)
        → r.lifecycle.state_val ≡ failed
        → Waited (h.time 0) r.lifecycle
        → checked.lifecycle.state_val ≡ booting
        → r.events ≡ checked.events
        → r.execution ≡ checked.execution
        → checked.events ≡ some bus
        → IsQuiet bus
        → Restarted m
            (h.time 0)
            r
            (and_then (stop_engine checked) (load_and_assemble m t h replace_parts))
    unfolding stop_engine
    stops_and_boots r checked bus at waited here same_bus same_engine publishes quiet =
        elim (stop_engine_cases checked) [
          | inl stops ↦
              rw (stops, same_engine)
                (boots _ at waited (
                  load_and_assemble-Booted m t h replace_parts
                    (record checked { execution = halted checked.execution }) here
                    (rw publishes quiet) (λ cfg. replaces m t h _)))
          | inr (e, there, over, panics) ↦
              rw panics
                (closed_twice _ checked e at waited (same_engine ∙ there) over here (sym same_bus))
        ]

    -- `Restart` in FAILED, with a bus.
    heard :
        (r : CoreRuntime P S L T) (bus : Bus)
        → r.lifecycle.state_val ≡ failed
        → r.events ≡ some bus
        → IsQuiet bus
        → Restarted m (h.time 0) r (restart m t h r)
    unfolding restart valid_target
    heard r bus at publishes quiet =
        let (lm, err) = check_restart_cooldown (h.time 0) r.lifecycle in
        let checked : CoreRuntime P S L T = record r { lifecycle = lm } in
        let here : checked.lifecycle.state_val ≡ failed =
          check_restart_cooldown-state (h.time 0) r.lifecycle ∙ at in
        let is_failed : same_state r.lifecycle.state_val failed ≡ true = rw at refl in
        let payload = value (other_value "reason: cooldown_active") in
        elim (check_restart_cases (h.time 0) r.lifecycle) [
          | inr (some_text, unchanged, early) ↦
              rw
                (
                  is_failed,
                  some_text,
                  announce_quiet h 0 "runtime.restart_rejected" payload checked bus publishes quiet,
                )
                (cooling err checked (is_nil-ne err some_text) at early unchanged refl refl)
          | inl (fine, stamped, waited) ↦
              let (booted, there, e) = moves (h.time 0) failed booting checked here refl refl in
              rw
                (
                  is_failed,
                  fine,
                  announce_quiet h 0 "runtime.restart_requested" (value null) checked bus publishes
                      quiet,
                  e,
                )
                (stops_and_boots r (record checked { lifecycle = booted }) bus at waited there refl
                  refl publishes quiet)
        ]

    -- `Restart` in FAILED, without a bus.
    unheard :
        (r : CoreRuntime P S L T)
        → r.lifecycle.state_val ≡ failed
        → r.events ≡ none
        → Restarted m (h.time 0) r (restart m t h r)
    unfolding restart
    unheard r at no_bus_yet =
        let (lm, err) = check_restart_cooldown (h.time 0) r.lifecycle in
        let checked : CoreRuntime P S L T = record r { lifecycle = lm } in
        let here : checked.lifecycle.state_val ≡ failed =
          check_restart_cooldown-state (h.time 0) r.lifecycle ∙ at in
        let is_failed : same_state r.lifecycle.state_val failed ≡ true = rw at refl in
        let payload = value (other_value "reason: cooldown_active") in
        let panics : (why : String) → Restarted m (h.time 0) r (panicked why checked) =
          λ why. no_bus why checked at no_bus_yet here no_bus_yet in
        elim (Bool-cases (is_nil err)) [
          | inl fine ↦
              rw
                (
                  is_failed,
                  fine,
                  announce_nil h 0 "runtime.restart_requested" (value null) checked no_bus_yet,
                )
                (panics _)
          | inr early ↦
              rw
                (
                  is_failed,
                  early,
                  announce_nil h 0 "runtime.restart_rejected" payload checked no_bus_yet,
                )
                (panics _)
        ]

    pub restart-Restarted :
        (r : CoreRuntime P S L T) → IsSilent r.events → Restarted m (h.time 0) r (restart m t h r)
    unfolding restart
    restart-Restarted r silent = elim (Bool-cases (same_state r.lifecycle.state_val failed)) [
      | inr other ↦
          rw other (not_failed _ (λ e. cc) (same_state_ne r.lifecycle.state_val failed other))
      | inl same ↦
          let at = same_state_eq r.lifecycle.state_val failed same in
          elim (Option-cases r.events) [
            | inl no_bus_yet ↦ unheard r at no_bus_yet
            | inr (bus, publishes) ↦ heard r bus at publishes (rw publishes at silent)
          ]
    ]
