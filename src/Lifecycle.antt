-- ===== src/Lifecycle.antt =====
-- core/lifecycle/manager.go: the runtime's lifecycle state machine and component health.
-- A `time.Time` is a number of nanoseconds with the zero time at 0. Each operation runs under the
-- manager's mutex, and takes the time that `time.Now()` returns in it as an argument.
pub mod Graph
pub mod Histories
pub mod Health
use chukrun.Base.{
  ℕ, ◌*◌, String, Bool, true, false, not, ◌&&◌, ◌||◌, List, [], ◌∷◌, ◌==◌, if◌then◌else◌,
}
use chukrun.Base.Int.{ℤ, pos, ◌-ℤ◌, ◌*ℤ◌, ltb_ℤ, wrap64}
use chukrun.Base.Dict.{Dict, insert}
use chukrun.Base.Text.{◌<>◌, join, show_ℤ}
use chukrun.Errors.{GoError, nil, new_error, internal, error_text}

pub data State : Type 0 where
  uninitialized booting ready running degraded draining stopped failed : State

pub data HealthState : Type 0 where
  healthy degraded_health unhealthy draining_health : HealthState

pub record ComponentHealth : Type 0 where
  pub state : HealthState
  pub details : String
  pub fatal : Bool
  pub last_error : String
  pub checked_at : ℕ

pub record HealthStatus : Type 0 where
  pub overall : HealthState
  pub state : State
  pub components : Dict ComponentHealth
  pub since : ℕ
  pub reason : String

pub record LifecycleManager : Type 0 where
  pub state_val : State
  pub since : ℕ
  pub reason : String
  pub components : Dict ComponentHealth
  pub last_restart : ℕ
  pub cooldown_ms : ℤ
  pub degraded_ready : Bool

unfoldable pub state_string : State → String
state_string uninitialized = "UNINITIALIZED"
state_string booting = "BOOTING"
state_string ready = "READY"
state_string running = "RUNNING"
state_string degraded = "DEGRADED"
state_string draining = "DRAINING"
state_string stopped = "STOPPED"
state_string failed = "FAILED"

-- `==` of two states.
abbrev pub state_index : State → ℕ
state_index uninitialized = 0
state_index booting = 1
state_index ready = 2
state_index running = 3
state_index degraded = 4
state_index draining = 5
state_index stopped = 6
state_index failed = 7

abbrev pub same_state : State → State → Bool
same_state s t = state_index s == state_index t

-- `IsLive`, `IsReady` and `IsReadyOrDegraded` of a status.
unfoldable pub status_is_live : HealthStatus → Bool
status_is_live h =
    not (same_state h.state uninitialized)
    && not (same_state h.state stopped)
    && not (same_state h.state failed)

unfoldable pub status_is_ready : HealthStatus → Bool
status_is_ready h = same_state h.state ready || same_state h.state running

unfoldable pub status_is_ready_or_degraded : HealthStatus → Bool
status_is_ready_or_degraded h =
    same_state h.state ready || same_state h.state running || same_state h.state degraded

-- `NewLifecycleManager`.
unfoldable pub new_lifecycle_manager : ℕ → LifecycleManager
new_lifecycle_manager now = record {
  state_val = uninitialized;
  since = now;
  reason = "";
  components = [];
  last_restart = 0;
  cooldown_ms = pos 1000;
  degraded_ready = true;
}

unfoldable pub configure : ℤ → Bool → LifecycleManager → LifecycleManager
configure cooldown accept lm = record lm { cooldown_ms = cooldown; degraded_ready = accept }

-- `GetState`; the atomic value is always set by the constructor.
abbrev pub get_state : LifecycleManager → State
get_state lm = lm.state_val

-- `IsReady`.
unfoldable pub is_ready : LifecycleManager → Bool
is_ready lm =
    if same_state lm.state_val ready || same_state lm.state_val running
    then true
    else if same_state lm.state_val degraded
    then lm.degraded_ready
    else false

-- The `switch from` of `Transition`.
unfoldable pub valid_target : State → State → Bool
valid_target uninitialized to = same_state to booting
valid_target booting to = same_state to ready || same_state to failed
valid_target ready to = same_state to running || same_state to draining || same_state to failed
valid_target running to = same_state to degraded || same_state to failed || same_state to draining
valid_target degraded to = same_state to running || same_state to failed || same_state to draining
valid_target draining to = same_state to stopped
valid_target failed to = same_state to booting
valid_target stopped to = false

-- What `Transition` stores once the target is valid.
enter : ℕ → State → LifecycleManager → LifecycleManager
enter now to lm =
    let moved = record lm { state_val = to; since = now } in
    if same_state to booting then record moved { components = []; reason = "" } else moved

unfoldable pub transition : ℕ → State → LifecycleManager → LifecycleManager × GoError
unfolding valid_target enter
transition now to lm =
    if same_state lm.state_val to
    then (lm, nil)
    else if not (valid_target lm.state_val to)
    then (
      lm,
      new_error internal
          ("invalid lifecycle state transition from "
            <> state_string lm.state_val
            <> " to "
            <> state_string to)
          false nil,
    )
    else (enter now to lm, nil)

-- `time.Duration(lm.cooldownMS) * time.Millisecond`, in 64 bits.
abbrev pub cooldown : LifecycleManager → ℤ
cooldown lm = wrap64 (lm.cooldown_ms *ℤ pos 1000000)

unfoldable pub check_restart_cooldown : ℕ → LifecycleManager → LifecycleManager × GoError
check_restart_cooldown now lm =
    if not (lm.last_restart == 0) && ltb_ℤ (pos now -ℤ pos lm.last_restart) (cooldown lm)
    then (
      lm,
      new_error internal
          ("restart rejected: cooldown active (minimum "
            <> show_ℤ lm.cooldown_ms
            <> "ms between restarts)")
          false nil,
    )
    else (record lm { last_restart = now }, nil)

unfoldable pub handle_component_failure :
    ℕ → State → String → Bool → String → LifecycleManager → LifecycleManager
handle_component_failure now state component fatal last_err lm =
    if fatal
    then (if same_state state running
          || same_state state degraded
          || same_state state ready
          || same_state state booting
        then record lm {
          state_val = failed;
          since = now;
          reason = "fatal component " <> component <> " failed: " <> last_err;
        }
        else lm)
    else (if same_state state running || same_state state ready
        then record lm {
          state_val = degraded;
          since = now;
          reason = "non-fatal component " <> component <> " failed: " <> last_err;
        }
        else lm)

abbrev pub is_unhealthy : HealthState → Bool
is_unhealthy unhealthy = true
is_unhealthy _ = false

-- The loop over the components: the messages of those that are unhealthy. It leaves `allHealthy`
-- set exactly when it collects none.
unfoldable pub remaining_errors : Dict ComponentHealth → List String
remaining_errors [] = []
remaining_errors ((name, ch) ∷ rest) =
    let others = remaining_errors rest in
    if is_unhealthy ch.state then (name <> ": " <> ch.last_error) ∷ others else others

unfoldable pub recovered : ℕ → LifecycleManager → List String → LifecycleManager
recovered now lm [] = record lm { state_val = running; since = now; reason = "" }
recovered now lm (e ∷ es) = record lm {
  reason = "degraded due to failed components: [" <> join " " (e ∷ es) <> "]";
}

unfoldable pub handle_component_recovery : ℕ → State → LifecycleManager → LifecycleManager
unfolding recovered remaining_errors
handle_component_recovery now state lm =
    if not (same_state state degraded)
    then lm
    else recovered now lm (remaining_errors lm.components)

-- `lastErrStr`.
unfoldable pub failure_text : Bool → GoError → String
failure_text true err = ""
failure_text false nil = "unknown error"
failure_text false err = error_text err

-- The entry that a report stores.
unfoldable pub reported_health : ℕ → Bool → Bool → GoError → ComponentHealth
unfolding failure_text
reported_health now ok fatal err = record {
  state = if ok then healthy else unhealthy;
  details = failure_text ok err;
  fatal = fatal;
  last_error = failure_text ok err;
  checked_at = now;
}

unfoldable pub report_component_health :
    ℕ → String → Bool → Bool → GoError → LifecycleManager → LifecycleManager
report_component_health now component ok fatal err lm =
    let state = lm.state_val in
    if same_state state draining || same_state state stopped
    then lm
    else let stored = record lm {
      components = insert component (reported_health now ok fatal err) lm.components;
    } in
      if ok
      then handle_component_recovery now state stored
      else handle_component_failure now state component fatal (failure_text ok err) stored

-- The `switch state` of `HealthStatus`.
unfoldable pub overall_health : State → HealthState
overall_health ready = healthy
overall_health running = healthy
overall_health degraded = degraded_health
overall_health draining = draining_health
overall_health _ = unhealthy

-- `HealthStatus`: a snapshot, with an entry for the lifecycle itself.
unfoldable pub health_status : LifecycleManager → HealthStatus
unfolding overall_health
health_status lm = record {
  overall = overall_health lm.state_val;
  state = lm.state_val;
  components =
      insert "lifecycle"
        (record {
          state = overall_health lm.state_val;
          details = state_string lm.state_val;
          fatal = true;
          last_error = "";
          checked_at = lm.since;
        })
        lm.components;
  since = lm.since;
  reason = lm.reason;
}
