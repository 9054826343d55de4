-- ===== src/Tests/Lifecycle.antt =====
-- The lifecycle manager at concrete inputs.
use chukrun.Base.{◌≡◌, ◌≢◌, ◌⊎◌, String, true, false, [], ◌∷◌, some}
use chukrun.Base.Int.{pos}
use chukrun.Base.Dict.{lookup}
use chukrun.Errors.{nil, platform_error, plain_error, internal}
use chukrun.Lifecycle.{
  State, uninitialized, booting, ready, running, stopped, draining, failed, LifecycleManager,
  transition, report_component_health, reported_health, cooldown,
}
use chukrun.Lifecycle.Graph.{Edge, Entered, transition_cases}
use chukrun.Lifecycle.Histories.{reports, step, Move, step-Move}
use chukrun.Lifecycle.Health.{failure_target, report_failure, accepted, Apart, accepted-Apart}

-- A manager in a state, whose last restart was at 5 seconds.
abbrev manager_in : State → LifecycleManager
manager_in s = record {
  state_val = s;
  since = 0;
  reason = "";
  components = [];
  last_restart = 5000000000;
  cooldown_ms = pos 1000;
  degraded_ready = true;
}

transition_cases_example :
    let r = transition 9 booting (manager_in uninitialized) in
    (uninitialized ≡ booting × (r ≡ (manager_in uninitialized, nil)))
    ⊎ (Edge uninitialized booting × Entered 9 booting (manager_in uninitialized) r.0 × (r.1 ≡ nil))
    ⊎ ((uninitialized ≢ booting)
        × ¬ Edge uninitialized booting
        × (r.0 ≡ manager_in uninitialized)
        × ((m : String) × (r.1 ≡ platform_error internal m false nil)))
transition_cases_example = transition_cases 9 booting (manager_in uninitialized)

step-Move_example :
    Move
      (reports "cache" false false (plain_error "down"))
      ready
      (step (manager_in ready) (9, reports "cache" false false (plain_error "down"))).state_val
step-Move_example =
    step-Move (manager_in ready) (9, reports "cache" false false (plain_error "down"))

report_failure_example :
    let lm' =
      report_component_health 9 "cache" false true (plain_error "down") (manager_in running) in
    (lm'.state_val ≡ failure_target running true)
    × (((running ≡ draining) ⊎ (running ≡ stopped)) × (lm' ≡ manager_in running)
        ⊎ ((running ≢ draining)
            × (running ≢ stopped)
            × (lookup "cache" lm'.components
                ≡ some (reported_health 9 false true (plain_error "down")))))
report_failure_example = report_failure 9 "cache" true (plain_error "down") (manager_in running)

-- The checks at 6.5 and 7.5 seconds are let through, the one at 7 is not.
accepted-Apart_example :
    Apart
      (cooldown (manager_in failed))
      5000000000
      (accepted (manager_in failed) (6500000000 ∷ 7000000000 ∷ 7500000000 ∷ []))
accepted-Apart_example =
    accepted-Apart (manager_in failed) (6500000000 ∷ 7000000000 ∷ 7500000000 ∷ []) (λ e. cc)
      ((λ e. cc), ((λ e. cc), ((λ e. cc), tt)))
