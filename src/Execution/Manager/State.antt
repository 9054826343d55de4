-- ===== src/Execution/Manager/State.antt =====
-- The state of the execution manager (core/execution/manager.go) and the helpers that change it.
-- Executions are objects on a store, found by address. An `ExecRef` is a pointer to one, with the
-- fields of it that no code writes after `Submit`. `runs` are the goroutines of `runExecution` that
-- hold a slot: launched and not yet released. A channel of a waiter is a number, and `closed` are
-- those that were closed. `published` are the calls of `events.Publish`, the latest first, by type,
-- execution and time; their other payload, the counters and the spans have no effect on the state.
-- `fatals` are the messages of the calls of `logger.Fatal`, the latest first; the built-in logger
-- shuts the logs down and ends the process in the first of them, so what comes after it in this
-- model is that of a logger that returns.
use chukrun.Base.{
  ℕ, ◌+◌, ◌-◌, String, List, [], ◌∷◌, ◌++◌, Option, none, some, ltb, ◌==◌, str_eq, if◌then◌else◌,
  modify,
}
use chukrun.Base.Int.{ℤ, pos, pos_part, ◌+ℤ◌, ◌-ℤ◌, leb_ℤ}
use chukrun.Base.Dict.{Dict, lookup, insert, delete}
use chukrun.Context.Priority.{PriorityClass}
use chukrun.Execution.Scheduler.{PriorityScheduler, or_empty, new_priority_scheduler}
use chukrun.Execution.Types.{Execution}
use chukrun.Lifecycle.{LifecycleManager}

pub record ExecRef : Type 0 where
  pub address : ℕ
  pub id : String
  pub provider_ref : String
  pub priority : PriorityClass

pub record Published : Type 0 where
  pub topic : String
  pub execution_id : String
  pub at : ℕ

pub record ExecutionManager : Type 0 where
  pub lifecycle : LifecycleManager
  pub sem : ℕ
  pub sem_cap : ℕ
  pub queue_cap : ℕ
  pub store : List Execution
  pub executions : Dict ℕ
  pub waiters : Dict (List ℕ)
  pub next_channel : ℕ
  pub closed : List ℕ
  pub scheduler : PriorityScheduler ExecRef
  pub schedule_signal : ℕ
  pub provider_active : Dict ℤ
  pub provider_limits : Dict ℕ
  pub runs : List ExecRef
  pub published : List Published
  pub fatals : List String

-- `NewExecutionManager`, of a global limit and a queue size.
unfoldable pub new_execution_manager : LifecycleManager → ℤ → ℤ → ExecutionManager
new_execution_manager lifecycle global_limit queue_size = record {
  lifecycle = lifecycle;
  sem = 0;
  sem_cap = if leb_ℤ global_limit (pos 0) then 1000 else pos_part global_limit;
  queue_cap = pos_part queue_size;
  store = [];
  executions = [];
  waiters = [];
  next_channel = 0;
  closed = [];
  scheduler = new_priority_scheduler;
  schedule_signal = 0;
  provider_active = [];
  provider_limits = ("openai-primary", 500) ∷ ("anthropic-primary", 500) ∷ [];
  runs = [];
  published = [];
  fatals = [];
}

abbrev pub or_zero_ℤ : Option ℤ → ℤ
or_zero_ℤ none = pos 0
or_zero_ℤ (some n) = n

-- `em.providerActive[p]`.
abbrev pub active_of : ExecutionManager → String → ℤ
active_of em p = or_zero_ℤ (lookup p em.provider_active)

-- A write to an execution under its lock.
abbrev pub with_execution : ℕ → (Execution → Execution) → ExecutionManager → ExecutionManager
with_execution address f em = record em { store = modify address f em.store }

abbrev pub publish : String → String → ℕ → ExecutionManager → ExecutionManager
publish topic id now em = record em {
  published = record { topic = topic; execution_id = id; at = now } ∷ em.published;
}

-- The send to `scheduleSignal`, which holds 1000 and drops the rest.
unfoldable pub signal : ExecutionManager → ExecutionManager
signal em = record em {
  schedule_signal =
      if ltb em.schedule_signal 1000 then em.schedule_signal + 1 else em.schedule_signal;
}

-- The part of `scheduleNext` that gives an execution its slots.
unfoldable pub launch : ExecRef → ExecutionManager → ExecutionManager
launch ref em =
    let p = ref.provider_ref in
    record em {
      sem = em.sem + 1;
      provider_active =
          if str_eq p ""
          then em.provider_active
          else insert p (active_of em p +ℤ pos 1) em.provider_active;
      runs = ref ∷ em.runs;
    }

-- The first run at an address ends.
unfoldable pub drop_run : ℕ → List ExecRef → List ExecRef
drop_run address [] = []
drop_run address (r ∷ runs) = if r.address == address then runs else r ∷ drop_run address runs

-- `releaseSlots`. The receive from `sem` waits while the channel is empty, so it takes one element.
unfoldable pub release_slots : ExecRef → ExecutionManager → ExecutionManager
unfolding signal
release_slots ref em =
    let p = ref.provider_ref in
    signal (record em {
      sem = em.sem - 1;
      provider_active =
          if str_eq p ""
          then em.provider_active
          else insert p (active_of em p -ℤ pos 1) em.provider_active;
      runs = drop_run ref.address em.runs;
    })

-- `notifyWaiters`.
unfoldable pub notify_waiters : String → ExecutionManager → ExecutionManager
notify_waiters id em = record em {
  waiters = delete id em.waiters;
  closed = or_empty (lookup id em.waiters) ++ em.closed;
}

-- `ActiveCount`.
unfoldable pub active_count : ExecutionManager → ℕ
active_count em = em.sem
