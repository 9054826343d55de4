-- ===== src/Lifecycle/Health.antt =====
-- What a health report does, what a snapshot shows, and the restart cooldown.
use chukrun.Base.{
  ℕ, ◌≡◌, refl, ◌∙◌, some, sym, ◌≢◌, ◌⊎◌, ◌↔◌, inl, inr, String, Bool, true, false, List, [], ◌∷◌,
  All, arith, eq_iff, if◌then◌else◌,
}
use chukrun.Base.Int.{ℤ, pos, ◌-ℤ◌, ◌≤ℤ◌}
use chukrun.Base.Dict.{Dict, lookup, insert, lookup-insert_self, lookup-insert}
use chukrun.Errors.{GoError, is_nil}
use chukrun.Lifecycle.{
  State, booting, ready, running, degraded, draining, stopped, failed, unhealthy, healthy,
  ComponentHealth, LifecycleManager, report_component_health, handle_component_failure,
  handle_component_recovery, reported_health, remaining_errors, recovered, health_status,
  status_is_ready, status_is_live, degraded_health, is_ready, cooldown, check_restart_cooldown,
}

-- No component is unhealthy.
abbrev pub AllHealthy : Dict ComponentHealth → Type 0
AllHealthy = All (λ e. e.1.state ≢ unhealthy)

AllHealthy-of_nil : (m : Dict ComponentHealth) → remaining_errors m ≡ [] → AllHealthy m
unfolding remaining_errors
AllHealthy-of_nil [] e = tt
AllHealthy-of_nil ((name, ch) ∷ rest) e = ground (arith, AllHealthy-of_nil rest)

nil_of_AllHealthy : (m : Dict ComponentHealth) → AllHealthy m → remaining_errors m ≡ []
unfolding remaining_errors
nil_of_AllHealthy [] h = refl
nil_of_AllHealthy ((name, ch) ∷ rest) h = ground (arith, nil_of_AllHealthy rest h.1)

recovery_cases :
    (now : ℕ) (lm : LifecycleManager)
    → let lm' = handle_component_recovery now degraded lm in
      (AllHealthy lm.components × (lm'.state_val ≡ running) × (lm'.reason ≡ ""))
      ⊎ (¬ AllHealthy lm.components × (lm'.state_val ≡ lm.state_val))
unfolding handle_component_recovery
recovery_cases now lm = by_errors (remaining_errors lm.components) refl
  where
    by_errors :
        (es : List String)
        → remaining_errors lm.components ≡ es
        → let lm' = recovered now lm (remaining_errors lm.components) in
          (AllHealthy lm.components × (lm'.state_val ≡ running) × (lm'.reason ≡ ""))
          ⊎ (¬ AllHealthy lm.components × (lm'.state_val ≡ lm.state_val))
    by_errors [] e = inl (AllHealthy-of_nil _ e, ground arith, ground arith)
    by_errors (x ∷ xs) e = inr (λ h. cc (nil_of_AllHealthy _ h), ground arith)

recovered-components :
    (now : ℕ) (lm : LifecycleManager) (es : List String)
    → (recovered now lm es).components ≡ lm.components
unfolding recovered
recovered-components now lm [] = refl
recovered-components now lm (_ ∷ _) = refl

-- What the report leaves before the runtime's state is looked at.
abbrev stored : ℕ → String → Bool → Bool → GoError → LifecycleManager → LifecycleManager
stored now component ok fatal err lm = record lm {
  components = insert component (reported_health now ok fatal err) lm.components;
}

report_degraded :
    (now : ℕ) (component : String) (fatal : Bool) (err : GoError) (lm : LifecycleManager)
    → lm.state_val ≡ degraded
    → report_component_health now component true fatal err lm
      ≡ handle_component_recovery now degraded (stored now component true fatal err lm)
unfolding report_component_health
report_degraded now component fatal err lm d = ground arith

-- A healthy report to a DEGRADED runtime is recorded under the component's name, and brings the
-- runtime back to RUNNING, with no reason, exactly if no component is unhealthy then; otherwise
-- the runtime stays DEGRADED.
pub report_recovery :
    (now : ℕ) (component : String) (fatal : Bool) (err : GoError) (lm : LifecycleManager)
    → lm.state_val ≡ degraded
    → let lm' = report_component_health now component true fatal err lm in
      let components = insert component (reported_health now true fatal err) lm.components in
      (lm'.components ≡ components)
      × ((AllHealthy components × (lm'.state_val ≡ running) × (lm'.reason ≡ ""))
          ⊎ (¬ AllHealthy components × (lm'.state_val ≡ degraded)))
unfolding handle_component_recovery
report_recovery now component fatal err lm d =
    let s = stored now component true fatal err lm in
    rw (report_degraded now component fatal err lm d) (
      recovered-components now s _,
      elim (recovery_cases now s) [
        | inl healthy_all ↦ inl healthy_all
        | inr (some_ill, stays) ↦ inr (some_ill, stays ∙ d)
      ],
    )

-- Where an unhealthy report leads, by the state that it finds.
abbrev pub failure_target : State → Bool → State
failure_target booting true = failed
failure_target ready true = failed
failure_target running true = failed
failure_target degraded true = failed
failure_target ready false = degraded
failure_target running false = degraded
failure_target s _ = s

-- An unhealthy report: a fatal one fails a runtime that boots, is ready, runs or is degraded; one
-- that is not fatal degrades a runtime that is ready or runs; no other state changes. A runtime
-- that is draining or stopped keeps everything as it was; of every other, the report is found under
-- the component's name.
pub report_failure :
    (now : ℕ) (component : String) (fatal : Bool) (err : GoError) (lm : LifecycleManager)
    → let lm' = report_component_health now component false fatal err lm in
      (lm'.state_val ≡ failure_target lm.state_val fatal)
      × (((lm.state_val ≡ draining) ⊎ (lm.state_val ≡ stopped)) × (lm' ≡ lm)
          ⊎ ((lm.state_val ≢ draining)
              × (lm.state_val ≢ stopped)
              × (lookup component lm'.components ≡ some (reported_health now false fatal err))))
unfolding report_component_health handle_component_failure
report_failure now component fatal err lm = (
  ground arith,
  ground (arith, lookup-insert_self component (reported_health now false fatal err) lm.components),
)

-- The status snapshot agrees with the manager: it is ready or degraded exactly if the state is
-- READY, RUNNING or DEGRADED; it reports the lifecycle as a component of its own with the overall
-- health; and it shows every other component as it is recorded.
pub health_status_agrees :
    (lm : LifecycleManager) (component : String)
    → let h = health_status lm in
      ((is_ready lm ≡ true) ↔ (
        (status_is_ready h ≡ true) ⊎ ((h.overall ≡ degraded_health) × (lm.degraded_ready ≡ true))))
      × ((status_is_ready h ≡ true) ↔ (h.overall ≡ healthy))
      × ((status_is_live h ≡ false) → (h.overall ≡ unhealthy))
      × (component ≢ "lifecycle" → lookup component h.components ≡ lookup component lm.components)
unfolding health_status is_ready status_is_ready status_is_live
health_status_agrees lm component = (
  (ground arith, ground arith),
  (ground arith, ground arith),
  ground arith,
  λ other.
      lookup-insert "lifecycle" component _ lm.components
      ∙ ground
          (arith, eq_iff "lifecycle" component, λ (e : "lifecycle" ≡ component). other (sym e)),
)

-- No restart was let through yet, or the last one is the cooldown ago.
abbrev pub Waited : ℕ → LifecycleManager → Type 0
Waited now lm = (lm.last_restart ≡ 0) ⊎ (cooldown lm ≤ℤ pos now -ℤ pos lm.last_restart)

-- A restart check passes exactly if no restart was let through before or the cooldown has passed
-- since; it then stamps the time, and otherwise changes nothing.
pub check_restart_cases :
    (now : ℕ) (lm : LifecycleManager)
    → let (lm', err) = check_restart_cooldown now lm in
      ((is_nil err ≡ true) × (lm' ≡ record lm { last_restart = now }) × Waited now lm)
      ⊎ ((is_nil err ≡ false) × (lm' ≡ lm) × ¬ Waited now lm)
unfolding check_restart_cooldown
check_restart_cases now lm = ground arith

-- The times at which a run of restart checks is let through.
pub accepted : LifecycleManager → List ℕ → List ℕ
accepted lm [] = []
accepted lm (now ∷ later) =
    let (lm', err) = check_restart_cooldown now lm in
    if is_nil err then now ∷ accepted lm' later else accepted lm' later

-- Each time stands at least `c` after the one before it, the first after `last`.
abbrev pub Apart : ℤ → ℕ → List ℕ → Type 0
Apart c last [] = Unit {0}
Apart c last (t ∷ ts) = (c ≤ℤ pos t -ℤ pos last) × Apart c t ts

check_cases :
    (now : ℕ) (lm : LifecycleManager)
    → lm.last_restart ≢ 0
    → let (lm', err) = check_restart_cooldown now lm in
      ((is_nil err ≡ true)
        × (lm' ≡ record lm { last_restart = now })
        × (cooldown lm ≤ℤ pos now -ℤ pos lm.last_restart))
      ⊎ ((is_nil err ≡ false) × (lm' ≡ lm))
unfolding check_restart_cooldown
check_cases now lm once = ground arith

-- Restarts are let through no closer together than the cooldown: of the restart checks at the given
-- times, rejected ones in between included, each one that is accepted comes at least the cooldown
-- after the accepted one before it.
pub accepted-Apart :
    (lm : LifecycleManager) (times : List ℕ)
    → lm.last_restart ≢ 0
    → All (λ t. t ≢ 0) times
    → Apart (cooldown lm) lm.last_restart (accepted lm times)
unfolding accepted
accepted-Apart lm [] once nonzero = tt
accepted-Apart lm (now ∷ later) once (n, ns) = elim (check_cases now lm once) [
  | inl (ok, moved, apart) ↦
      rw (ok, moved) (apart, accepted-Apart (record lm { last_restart = now }) later n ns)
  | inr (refused, kept) ↦ rw (refused, kept) (accepted-Apart lm later once ns)
]
