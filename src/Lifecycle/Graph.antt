-- ===== src/Lifecycle/Graph.antt =====
-- The transition diagram that `Transition` (core/lifecycle/manager.go) enforces, as a relation.
use chukrun.Base.{
  String, ◌≡◌, refl, ◌≢◌, ◌⊎◌, inl, inr, Bool, true, false, ℕ, [], arith, Bool-cases,
}
use chukrun.Errors.{nil, platform_error, internal}
use chukrun.Lifecycle.{
  State, uninitialized, booting, ready, running, degraded, draining, stopped, failed,
  LifecycleManager, valid_target, transition, same_state,
}

pub data Edge : State → State → Type 0 where
  boot : Edge uninitialized booting
  booted : Edge booting ready
  boot_fails : Edge booting failed
  first_work : Edge ready running
  ready_drains : Edge ready draining
  ready_fails : Edge ready failed
  degrades : Edge running degraded
  running_fails : Edge running failed
  running_drains : Edge running draining
  recovers : Edge degraded running
  degraded_fails : Edge degraded failed
  degraded_drains : Edge degraded draining
  stops : Edge draining stopped
  restarts : Edge failed booting

pub ruleset edges = (
  boot, booted, boot_fails, first_work, ready_drains, ready_fails, degrades, running_fails,
  running_drains, recovers, degraded_fails, degraded_drains, stops, restarts,
)

pub valid_target-Edge : (from to : State) → valid_target from to ≡ true → Edge from to
unfolding valid_target
valid_target-Edge uninitialized to h = grind (arith, edges)
valid_target-Edge booting to h = grind (arith, edges)
valid_target-Edge ready to h = grind (arith, edges)
valid_target-Edge running to h = grind (arith, edges)
valid_target-Edge degraded to h = grind (arith, edges)
valid_target-Edge draining to h = grind (arith, edges)
valid_target-Edge failed to h = grind (arith, edges)
valid_target-Edge stopped to h = cc

pub Edge-valid_target : {from to : State} → Edge from to → valid_target from to ≡ true
unfolding valid_target
Edge-valid_target boot = refl
Edge-valid_target booted = refl
Edge-valid_target boot_fails = refl
Edge-valid_target first_work = refl
Edge-valid_target ready_drains = refl
Edge-valid_target ready_fails = refl
Edge-valid_target degrades = refl
Edge-valid_target running_fails = refl
Edge-valid_target running_drains = refl
Edge-valid_target recovers = refl
Edge-valid_target degraded_fails = refl
Edge-valid_target degraded_drains = refl
Edge-valid_target stops = refl
Edge-valid_target restarts = refl

pub same_state_eq : (s t : State) → same_state s t ≡ true → s ≡ t
same_state_eq s t h = ground arith

pub same_state_ne : (s t : State) → same_state s t ≡ false → s ≢ t
same_state_ne s t h = ground arith

-- What a transition to another state leaves behind: the target and the time, and no components
-- and no reason after a boot; everything else stays.
pub record Entered (now : ℕ) (to : State) (old new : LifecycleManager) : Type 0 where
  pub at : new.state_val ≡ to
  pub stamped : new.since ≡ now
  pub boot_clears : to ≡ booting → new.components ≡ []
  pub boot_forgets : to ≡ booting → new.reason ≡ ""
  pub others_keep : to ≢ booting → new.components ≡ old.components
  pub others_explain : to ≢ booting → new.reason ≡ old.reason
  pub cooldown_kept : new.cooldown_ms ≡ old.cooldown_ms
  pub restart_kept : new.last_restart ≡ old.last_restart
  pub policy_kept : new.degraded_ready ≡ old.degraded_ready

pub transition-Entered :
    (now : ℕ) (to : State) (lm : LifecycleManager)
    → same_state lm.state_val to ≡ false
    → valid_target lm.state_val to ≡ true
    → Entered now to lm (transition now to lm).0 × ((transition now to lm).1 ≡ nil)
unfolding transition
transition-Entered now to lm differ valid = ground arith

not_both : (b : Bool) → b ≡ false → b ≡ true → ⊥
not_both b p q = cc

transition_at :
    (now : ℕ) (to : State) (lm : LifecycleManager)
    → same_state lm.state_val to ≡ true
    → transition now to lm ≡ (lm, nil)
unfolding transition
transition_at now to lm here = ground arith

transition_refused :
    (now : ℕ) (to : State) (lm : LifecycleManager)
    → same_state lm.state_val to ≡ false
    → valid_target lm.state_val to ≡ false
    → ((transition now to lm).0 ≡ lm)
      × ((m : String) × ((transition now to lm).1 ≡ platform_error internal m false nil))
unfolding transition
transition_refused now to lm differ invalid = rw (differ, invalid) (refl, (_, refl))

-- `Transition` does one of three things: at the target already, it changes nothing; along an edge
-- of the diagram it enters the target; without an edge it refuses with an internal error that is
-- not retryable, and changes nothing.
pub transition_cases :
    (now : ℕ) (to : State) (lm : LifecycleManager)
    → let r = transition now to lm in
      ((lm.state_val ≡ to) × (r ≡ (lm, nil)))
      ⊎ (Edge lm.state_val to × Entered now to lm r.0 × (r.1 ≡ nil))
      ⊎ ((lm.state_val ≢ to)
          × ¬ Edge lm.state_val to
          × (r.0 ≡ lm)
          × ((m : String) × (r.1 ≡ platform_error internal m false nil)))
transition_cases now to lm = elim (Bool-cases (same_state lm.state_val to)) [
  | inl here ↦ inl (same_state_eq _ _ here, transition_at now to lm here)
  | inr away ↦ elim (Bool-cases (valid_target lm.state_val to)) [
    | inl valid ↦
        let (entered, accepted) = transition-Entered now to lm away valid in
        inr (inl (valid_target-Edge _ _ valid, entered, accepted))
    | inr invalid ↦
        let (kept, refusal) = transition_refused now to lm away invalid in
        inr (
          inr (
            same_state_ne _ _ away,
            λ edge. not_both _ invalid (Edge-valid_target edge),
            kept,
            refusal,
          ))
  ]
]
