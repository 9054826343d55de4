-- ===== src/Lifecycle/Histories.antt =====
-- What holds of the lifecycle manager over every sequence of its calls.
use chukrun.Base.{
  ℕ, ◌≡◌, refl, ◌∙◌, ap, ◌⊎◌, inl, inr, String, Bool, true, false, ◌||◌, Bool-cases, List, [], ◌∷◌,
  arith,
}
use chukrun.Base.Int.{ℤ}
use chukrun.Errors.{GoError}
use chukrun.Lifecycle.{
  State, ready, degraded, draining, stopped, valid_target, LifecycleManager, transition,
  handle_component_failure, handle_component_recovery, remaining_errors, same_state, configure,
  check_restart_cooldown, report_component_health,
}
use chukrun.Lifecycle.Graph.{Edge, Edge-valid_target, edges, transition_cases}

pub data Call : Type 0 where
  transitions : State → Call
  configures : ℤ → Bool → Call
  checks_restart : Call
  reports : String → Bool → Bool → GoError → Call

-- One call at a time, under the manager's mutex.
unfoldable pub step : LifecycleManager → ℕ × Call → LifecycleManager
step lm (now, transitions to) = (transition now to lm).0
step lm (now, configures cooldown_ms accept) = configure cooldown_ms accept lm
step lm (now, checks_restart) = (check_restart_cooldown now lm).0
step lm (now, reports component ok fatal err) =
    report_component_health now component ok fatal err lm

unfoldable pub run : LifecycleManager → List (ℕ × Call) → LifecycleManager
run lm [] = lm
run lm (c ∷ cs) = run (step lm c) cs

-- The report of an unhealthy component that is not fatal.
abbrev pub IsMildReport : Call → Type 0
IsMildReport (reports component false false err) = Unit {0}
IsMildReport _ = ⊥

-- A call leaves the state or follows the diagram; a report may degrade a runtime that is ready.
pub data Move (call : Call) (from : State) (to : State) : Type 0 where
  stay : to ≡ from → Move call from to
  along : Edge from to → Move call from to
  ready_degrades : IsMildReport call → from ≡ ready → to ≡ degraded → Move call from to

mild_degrades :
    (component : String) (err : GoError) {from to : State}
    → from ≡ ready
    → to ≡ degraded
    → Move (reports component false false err) from to
mild_degrades component err r d = ready_degrades tt r d

handle_component_failure-Move :
    (now : ℕ) (component : String) (fatal : Bool) (e : GoError) (err : String)
    (lm : LifecycleManager)
    → Move
        (reports component false fatal e)
        lm.state_val
        (handle_component_failure now lm.state_val component fatal err lm).state_val
unfolding handle_component_failure
handle_component_failure-Move now component true e err lm = grind (arith, stay, along, edges)
handle_component_failure-Move now component false e err lm =
    grind (arith, stay, along, mild_degrades component e, edges)

handle_component_recovery-Move :
    (call : Call) (now : ℕ) (lm : LifecycleManager) (es : List String)
    → remaining_errors lm.components ≡ es
    → Move call lm.state_val (handle_component_recovery now lm.state_val lm).state_val
unfolding handle_component_recovery
handle_component_recovery-Move call now lm [] e = grind (arith, stay, along, edges)
handle_component_recovery-Move call now lm (_ ∷ _) e = grind (arith, stay, along, edges)

-- `ReportComponentHealth` stores states without asking `Transition`.
report-Move :
    (lm : LifecycleManager) (now : ℕ) (component : String) (ok fatal : Bool) (err : GoError)
    → Move
        (reports component ok fatal err)
        lm.state_val
        (report_component_health now component ok fatal err lm).state_val
unfolding report_component_health
report-Move lm now component true fatal err =
    elim (Bool-cases (same_state lm.state_val draining || same_state lm.state_val stopped)) [
      | inl over ↦ rw over (stay refl)
      | inr live ↦ rw live (handle_component_recovery-Move _ now _ _ refl)
    ]
report-Move lm now component false fatal err =
    elim (Bool-cases (same_state lm.state_val draining || same_state lm.state_val stopped)) [
      | inl over ↦ rw over (stay refl)
      | inr live ↦ rw live (handle_component_failure-Move now component fatal err _ _)
    ]

transition-Move :
    (call : Call) (lm : LifecycleManager) (now : ℕ) (to : State)
    → Move call lm.state_val (transition now to lm).0.state_val
transition-Move call lm now to = elim (transition_cases now to lm) [
  | inl (_, e) ↦ stay (ap (λ r. r.0.state_val) e)
  | inr (inl (edge, entered, _)) ↦ rw entered.at (along edge)
  | inr (inr (_, _, kept, _)) ↦ stay (ap (λ l. l.state_val) kept)
]

check_restart-Move :
    (call : Call) (lm : LifecycleManager) (now : ℕ)
    → Move call lm.state_val (check_restart_cooldown now lm).0.state_val
unfolding check_restart_cooldown
check_restart-Move call lm now = stay (ground arith)

-- Whatever is called, the state stays, follows an edge of the transition diagram, or goes from
-- READY to DEGRADED; the last is no edge of the diagram, and only the report of an unhealthy
-- component that is not fatal does it.
pub step-Move : (lm : LifecycleManager) (c : ℕ × Call) → Move c.1 lm.state_val (step lm c).state_val
unfolding step
step-Move lm (now, transitions to) = transition-Move _ lm now to
step-Move lm (now, configures cooldown_ms accept) = unfold configure in stay refl
step-Move lm (now, checks_restart) = check_restart-Move _ lm now
step-Move lm (now, reports component ok fatal err) = report-Move lm now component ok fatal err

-- Where each edge from a closing state leads.
Edge_from_stopped : {from to : State} → Edge from to → from ≡ stopped → ⊥
unfolding valid_target
Edge_from_stopped {to = to} e s = cc (Edge-valid_target e, ap (λ f. valid_target f to) s)

Edge_from_draining : {from to : State} → Edge from to → from ≡ draining → to ≡ stopped
unfolding valid_target
Edge_from_draining {to = to} e s =
    ground (arith, Edge-valid_target e, ap (λ f. valid_target f to) s)

Move-from_stopped :
    {call : Call} {from to : State} → Move call from to → from ≡ stopped → to ≡ stopped
Move-from_stopped (stay e) s = e ∙ s
Move-from_stopped (along e) s = absurd (Edge_from_stopped e s)
Move-from_stopped (ready_degrades mild r d) s = cc

-- A runtime that is being shut down or is.
abbrev pub IsClosing : State → Type 0
IsClosing s = (s ≡ draining) ⊎ (s ≡ stopped)

Move-IsClosing : {call : Call} {from to : State} → Move call from to → IsClosing from → IsClosing to
Move-IsClosing (stay e) (inl d) = inl (e ∙ d)
Move-IsClosing (along e) (inl d) = inr (Edge_from_draining e d)
Move-IsClosing (ready_degrades mild r g) (inl d) = absurd (cc)
Move-IsClosing m (inr s) = inr (Move-from_stopped m s)

-- STOPPED is final: after it no history of calls, health reports and restarts included, changes
-- the state.
pub run_stopped :
    (lm : LifecycleManager) (cs : List (ℕ × Call))
    → lm.state_val ≡ stopped
    → (run lm cs).state_val ≡ stopped
unfolding run
run_stopped lm [] s = s
run_stopped lm (c ∷ cs) s = run_stopped (step lm c) cs (Move-from_stopped (step-Move lm c) s)

-- A shutdown is not taken back: from DRAINING or STOPPED every history of calls ends in DRAINING
-- or STOPPED.
pub run-IsClosing :
    (lm : LifecycleManager) (cs : List (ℕ × Call))
    → IsClosing lm.state_val
    → IsClosing (run lm cs).state_val
unfolding run
run-IsClosing lm [] closing = closing
run-IsClosing lm (c ∷ cs) closing =
    run-IsClosing (step lm c) cs (Move-IsClosing (step-Move lm c) closing)
