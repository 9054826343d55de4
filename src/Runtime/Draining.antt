-- ===== src/Runtime/Draining.antt =====
-- `Shutdown` (core/runtime.go): what it ends in, and what it leaves undone.
use chukrun.Base.{
  ◌≡◌, refl, sym, ◌∙◌, ap, ◌≢◌, ◌⊎◌, inl, inr, true, false, List, [], ◌∷◌, Option, none, some,
  arith, Bool-cases,
}
use chukrun.Config.{Machine}
use chukrun.Errors.{GoError, nil}
use chukrun.Events.Bus.{Bus, value}
use chukrun.Execution.Types.{null}
use chukrun.Execution.Manager.State.{ExecutionManager}
use chukrun.Lifecycle.{
  State, LifecycleManager, ready, running, degraded, draining, stopped, same_state, valid_target,
  transition,
}
use chukrun.Lifecycle.Graph.{Edge-valid_target, transition_cases, same_state_eq, transition-Entered}
use chukrun.Runtime.Defs.{
  Engine, CoreRuntime, Host, Outcome, goes_on, returned, still_draining, and_then,
}
use chukrun.Runtime.Boot.{announce, move_to}
use chukrun.Runtime.Serve.{
  Wakeup, tick, deadline, ctx_done, drain, shutdown, set_manager, managed, is_idle,
}
use chukrun.Runtime.Steps.{halted, stop_engine_cases}
use chukrun.Runtime.Quiet.{IsQuiet, announce_quiet}
use chukrun.Runtime.Booting.{IsUp, IsSilent}

-- The states in which the runtime serves.
abbrev pub IsServing : State → Type 0
IsServing s = (s ≡ ready) ⊎ ((s ≡ running) ⊎ (s ≡ degraded))

pub IsServing-of : (s : State) → valid_target s draining ≡ true → s ≢ draining → IsServing s
unfolding valid_target
IsServing-of State.ready e other = inl refl
IsServing-of State.running e other = inr (inl refl)
IsServing-of State.degraded e other = inr (inr refl)
IsServing-of s e other = ground arith

differs : (s t : State) → s ≢ t → same_state s t ≡ false
differs s t other = elim (Bool-cases (same_state s t)) [
  | inl same ↦ absurd (other (same_state_eq s t same))
  | inr apart ↦ apart
]

-- The loop of the engine was stopped.
abbrev pub IsHalted : Option Engine → Type 0
IsHalted none = Unit
IsHalted (some e) = e.loop_stopped ≡ true

halted-IsHalted : (x : Option Engine) → IsHalted (halted x)
halted-IsHalted none = tt
halted-IsHalted (some e) = refl

managed-IsHalted :
    (em : ExecutionManager) (x : Option Engine) → IsHalted x → IsHalted (managed em x)
managed-IsHalted em none over = over
managed-IsHalted em (some e) over = over

module _ {P S L T : Type 0} where
  -- The drain changes the engine's manager only.
  pub record Same (r r' : CoreRuntime P S L T) : Type 0 where
    pub lifecycle : r'.lifecycle ≡ r.lifecycle
    pub events : r'.events ≡ r.events
    pub halts : IsHalted r.execution → IsHalted r'.execution

  Same-trans : (a b c : CoreRuntime P S L T) → Same a b → Same b c → Same a c
  Same-trans a b c s t = record {
    lifecycle = t.lifecycle ∙ s.lifecycle;
    events = t.events ∙ s.events;
    halts = λ h. t.halts (s.halts h);
  }

  pub data Drains (r : CoreRuntime P S L T) : Outcome (CoreRuntime P S L T) → Type 0 where
    waits : (r' : CoreRuntime P S L T) → Same r r' → Drains r (still_draining r')
    ends : (r' : CoreRuntime P S L T) → Same r r' → Drains r (goes_on r')

  set_manager-Same : (em : ExecutionManager) (r : CoreRuntime P S L T) → Same r (set_manager em r)
  set_manager-Same em r = record {
    lifecycle = refl;
    events = refl;
    halts = managed-IsHalted em r.execution;
  }

  Drains-Same :
      (r r' : CoreRuntime P S L T) {out : Outcome (CoreRuntime P S L T)}
      → Same r r'
      → Drains r' out
      → Drains r out
  Drains-Same r r' s (waits x d) = waits x (Same-trans r r' x s d)
  Drains-Same r r' s (ends x d) = ends x (Same-trans r r' x s d)

  drain-Drains : (ws : List Wakeup) (r : CoreRuntime P S L T) → Drains r (drain ws r)
  unfolding drain
  drain-Drains [] r = waits r (record { lifecycle = refl; events = refl; halts = λ h. h })
  drain-Drains (tick em ∷ rest) r =
      let r' = set_manager em r in
      elim (Bool-cases (is_idle r'.execution)) [
        | inl idle ↦ rw idle (ends r' (set_manager-Same em r))
        | inr busy ↦ rw busy (Drains-Same r r' (set_manager-Same em r) (drain-Drains rest r'))
      ]
  drain-Drains (deadline ∷ rest) r =
      ends r (record { lifecycle = refl; events = refl; halts = λ h. h })
  drain-Drains (ctx_done ∷ rest) r =
      ends r (record { lifecycle = refl; events = refl; halts = λ h. h })

  -- How a shutdown of the runtime ends.
  pub data ShutDown (r : CoreRuntime P S L T) : Outcome (CoreRuntime P S L T) → Type 0 where
    refused : (err : GoError) → err ≢ nil → ShutDown r (returned err r)
    drains :
        (r' : CoreRuntime P S L T)
        → IsServing r.lifecycle.state_val
        → r'.lifecycle.state_val ≡ draining
        → IsSilent r'.events
        → ShutDown r (still_draining r')
    stops :
        (r' : CoreRuntime P S L T)
        → IsServing r.lifecycle.state_val
        → r'.lifecycle.state_val ≡ stopped
        → IsHalted r'.execution
        → IsSilent r'.events
        → ShutDown r (returned nil r')

  -- What follows the loop.
  abbrev completed : Host → CoreRuntime P S L T → Outcome (CoreRuntime P S L T)
  completed h r4 =
      let ended = record r4 { lifecycle = (transition (h.time 2) stopped r4.lifecycle).0 } in
      and_then (announce h 3 "runtime.shutdown_completed" (value null) ended)
        (λ r5. returned nil r5)

  module _ (h : Host) where
    completes :
        (old r : CoreRuntime P S L T) (bus : Bus) {out : Outcome (CoreRuntime P S L T)}
        → IsServing old.lifecycle.state_val
        → r.lifecycle.state_val ≡ draining
        → IsHalted r.execution
        → r.events ≡ some bus
        → IsQuiet bus
        → Drains r out
        → ShutDown old (and_then out (completed h))
    unfolding valid_target
    completes old r bus serving at over publishes quiet (waits r' s) =
        drains r' serving (ap (λ (lm : LifecycleManager). lm.state_val) s.lifecycle ∙ at)
          (rw (s.events ∙ publishes) quiet)
    completes old r bus serving at over publishes quiet (ends r' s) =
        let here : r'.lifecycle.state_val ≡ draining =
          ap (λ (lm : LifecycleManager). lm.state_val) s.lifecycle ∙ at in
        let ended : CoreRuntime P S L T = record r' {
          lifecycle = (transition (h.time 2) stopped r'.lifecycle).0;
        } in
        let entered =
          transition-Entered (h.time 2) stopped r'.lifecycle (rw here refl) (rw here refl) in
        rw
          (announce_quiet h 3 "runtime.shutdown_completed" (value null) ended bus
            (s.events ∙ publishes) quiet)
          (stops ended serving entered.0.at (s.halts over) (rw (s.events ∙ publishes) quiet))

    -- The shutdown of a runtime that serves.
    serving_stops :
        (wakeups : List Wakeup) (r : CoreRuntime P S L T) (bus : Bus) (e : Engine)
        → IsServing r.lifecycle.state_val
        → valid_target r.lifecycle.state_val draining ≡ true
        → same_state r.lifecycle.state_val draining ≡ false
        → same_state r.lifecycle.state_val stopped ≡ false
        → r.events ≡ some bus
        → IsQuiet bus
        → r.execution ≡ some e
        → e.loop_stopped ≡ false
        → ShutDown r (shutdown h wakeups r)
    unfolding shutdown move_to
    serving_stops wakeups r bus e serving valid away live publishes quiet there going =
        let entered = transition-Entered (h.time 0) draining r.lifecycle away valid in
        let r1 : CoreRuntime P S L T = record r {
          lifecycle = (transition (h.time 0) draining r.lifecycle).0;
        } in
        elim (stop_engine_cases r1) [
          | inr (e', same, over, panics) ↦ absurd (not_both e e' (sym there ∙ same) going over)
          | inl goes ↦
              let r2 : CoreRuntime P S L T = record r1 { execution = halted r.execution } in
              rw
                (
                  live,
                  entered.1,
                  goes,
                  announce_quiet h 1 "runtime.shutdown_started" (value null) r2 bus publishes quiet,
                )
                (completes r r2 bus serving entered.0.at (halted-IsHalted r.execution) publishes
                  quiet (drain-Drains wakeups r2))
        ]
      where
        not_both :
            (a b : Engine) → some a ≡ some b → a.loop_stopped ≡ false → b.loop_stopped ≡ true → ⊥
        not_both a b e p q = cc

    -- `Shutdown` of a runtime whose engine and bus are there while it serves refuses with an error,
    -- is still draining, or ends with no error in STOPPED and the loop of the engine stopped. It does
    -- not panic.
    pub shutdown-ShutDown :
        (wakeups : List Wakeup) (r : CoreRuntime P S L T) (m : Machine)
        → (IsServing r.lifecycle.state_val → IsUp m r)
        → IsSilent r.events
        → r.lifecycle.state_val ≢ draining
        → ShutDown r (shutdown h wakeups r)
    unfolding shutdown move_to
    shutdown-ShutDown wakeups r m up silent other =
        elim (Bool-cases (same_state r.lifecycle.state_val stopped)) [
          | inl over ↦ rw over (refused _ (λ e. cc))
          | inr live ↦ elim (transition_cases (h.time 0) draining r.lifecycle) [
            | inl (there, e) ↦ absurd (other there)
            | inr (inr (away, no_edge, same, (message, e))) ↦
                rw (live, same, e) (refused _ (λ z. cc))
            | inr (inl (edge, entered, e)) ↦
                let valid = Edge-valid_target edge in
                let serving = IsServing-of r.lifecycle.state_val valid other in
                let u = up serving in
                serving_stops wakeups r u.bus u.engine serving valid
                  (differs r.lifecycle.state_val draining other) live u.publishes
                  (rw u.publishes at silent) u.runs u.loops
          ]
        ]
