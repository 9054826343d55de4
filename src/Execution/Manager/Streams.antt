-- ===== src/Execution/Manager/Streams.antt =====
-- Streamed runs (core/execution/manager.go): `Stream`, the map `streamChans`, `runStreamExecution`, and
-- `runExecution` of an execution that may be streamed. A channel is an address; what was sent into it
-- stays on record. `reads` is how many chunks the caller takes from the channel of its stream in all:
-- as the channel holds 16, a send goes on exactly while fewer than `reads + 16` chunks were sent. A
-- panic of the provider, or of two runs that share an id, is left out.
pub mod Delivery
pub mod Hanging
use chukrun.Base.{
  ℕ, ◌+◌, String, Bool, true, false, not, List, [], ◌∷◌, ◌++◌, Option, none, some, length, ltb,
  if◌then◌else◌, get_elem?, modify,
}
use chukrun.Base.Dict.{Dict, lookup, insert, delete}
use chukrun.Base.Text.{◌<>◌}
use chukrun.Errors.{GoError, nil, new_error, internal, is_nil, ExecutionError, to_execution_error}
use chukrun.Lifecycle.{is_ready, state_string}
use chukrun.Execution.Types.{
  ExecutionRequest, ExecutionState, succeeded, failed, timed_out, ExecutionStatus, status_succeeded,
  status_failed, status_timed_out, ExecutionResult, Execution, TokenUsage, zero_result,
}
use chukrun.Execution.Registry.{Registry, Provider, resolve}
use chukrun.Execution.Manager.State.{
  ExecRef, ExecutionManager, with_execution, publish, release_slots, notify_waiters,
}
use chukrun.Execution.Manager.Submit.{Answer, submit}
use chukrun.Execution.Manager.Run.{RunHandler, begin_run, run_execution}

pub record StreamChunk : Type 0 where
  pub id : String
  pub content : String
  pub token_usage : Option TokenUsage
  pub error : GoError

pub record Channel : Type 0 where
  pub sent : List StreamChunk
  pub is_closed : Bool

pub record StreamManager : Type 0 where
  pub manager : ExecutionManager
  pub stream_chans : Dict ℕ
  pub channels : List Channel

-- `Stream` up to the return of `Submit`, after which the scheduler may run the execution.
unfoldable pub stream_submit :
    ℕ → String → ExecutionRequest → StreamManager → StreamManager × Answer ExecRef
stream_submit now generated req s =
    let (em, answer) = submit now generated req s.manager in
    if not (is_ready s.manager.lifecycle)
    then (
      s,
      (
        none,
        new_error internal
            ("cannot accept stream request: runtime is not ready (current state: "
              <> state_string s.manager.lifecycle.state_val
              <> ")")
            false nil,
      ),
    )
    else (record s { manager = em }, answer)

-- The rest of `Stream`, for an execution that was accepted: the channel that it returns.
unfoldable pub open_stream : String → StreamManager → StreamManager × ℕ
open_stream id s = (
  record s {
    stream_chans = insert id (length s.channels) s.stream_chans;
    channels = s.channels ++ record { sent = []; is_closed = false } ∷ [];
  },
  length s.channels,
)

-- What the `select` of the loop finds: a chunk of the provider, the end of the provider's channel,
-- or the end of the run's context with its error.
pub data StreamEvent : Type 0 where
  received : StreamChunk → StreamEvent
  input_closed : StreamEvent
  run_over : GoError → StreamEvent

-- The three ways out: the provider's `Stream` fails, its channel ends, or the run's context does.
pub data StreamEnd : Type 0 where
  refused : GoError → StreamEnd
  drained : StreamEnd
  overtime : GoError → StreamEnd

-- How far the loop has come: out of it, in a send that nobody takes, or in its `select`.
pub data Pumped : Type 0 where
  over : StreamEnd → List StreamChunk → Pumped
  stuck_sending : List StreamChunk → Pumped
  listening : List StreamChunk → Pumped

abbrev pub fits : ℕ → List StreamChunk → Bool
fits reads sent = ltb (length sent) (reads + 16)

abbrev pub error_chunk : String → GoError → StreamChunk
error_chunk id err = record { id = id; content = ""; token_usage = none; error = err }

-- The loop of `runStreamExecution`.
unfoldable pub pump : ℕ → String → List StreamEvent → List StreamChunk → Pumped
pump reads id [] sent = listening sent
pump reads id (received chunk ∷ rest) sent =
    let later = pump reads id rest (sent ++ chunk ∷ []) in
    if fits reads sent then later else stuck_sending sent
pump reads id (input_closed ∷ rest) sent = over drained sent
pump reads id (run_over err ∷ rest) sent =
    if fits reads sent
    then over (overtime err) (sent ++ error_chunk id err ∷ [])
    else stuck_sending sent

-- What comes before it: a provider that fails is told in one chunk.
unfoldable pub pump_from : GoError → ℕ → String → List StreamEvent → List StreamChunk → Pumped
unfolding pump
pump_from started reads id events sent =
    if is_nil started
    then pump reads id events sent
    else if fits reads sent
    then over (refused started) (sent ++ error_chunk id started ∷ [])
    else stuck_sending sent

abbrev pub end_state : StreamEnd → ExecutionState
end_state (refused err) = failed
end_state drained = succeeded
end_state (overtime err) = timed_out

abbrev pub end_status : StreamEnd → ExecutionStatus
end_status (refused err) = status_failed
end_status drained = status_succeeded
end_status (overtime err) = status_timed_out

abbrev pub end_error : StreamEnd → Option ExecutionError
end_error (refused err) = some (to_execution_error err)
end_error drained = none
end_error (overtime err) = some (to_execution_error err)

abbrev pub end_topic : StreamEnd → String
end_topic (refused err) = "execution.failed"
end_topic drained = "execution.succeeded"
end_topic (overtime err) = "execution.timed_out"

abbrev pub mark_ended : ℕ → String → StreamEnd → Execution → Execution
mark_ended now id ending e = record e {
  state = end_state ending;
  completed_at = some now;
  result = some (record zero_result {
    id = id;
    status = end_status ending;
    state = end_state ending;
    error = end_error ending;
  });
}

-- The end of a run on its own execution, with its event, its slots and its waiters; `runExecution`
-- has it where the provider is missing, and `runStreamExecution` in its three ways out.
abbrev pub end_run :
    (Execution → Execution) → String → ℕ → ExecRef → ExecutionManager → ExecutionManager
end_run f topic now ref em =
    notify_waiters ref.id
      (release_slots ref (publish topic ref.id now (with_execution ref.address f em)))

-- The deferred function of `runStreamExecution`.
abbrev pub close_stream : ExecRef → ℕ → StreamManager → StreamManager
close_stream ref ch s = record s {
  stream_chans = delete ref.id s.stream_chans;
  channels = modify ch (λ c. record c { is_closed = true }) s.channels;
}

abbrev pub put_sent : ℕ → List StreamChunk → StreamManager → StreamManager
put_sent ch chunks s = record s {
  channels = modify ch (λ c. record c { sent = chunks }) s.channels;
}

abbrev pub sent_into : Option Channel → List StreamChunk
sent_into none = []
sent_into (some c) = c.sent

-- A streamed run has ended, or it waits and holds its slots.
pub data StreamRun : Type 0 where
  stream_ended : StreamManager → StreamRun
  stream_waits : StreamManager → StreamRun

-- The end of a streamed run that sent these chunks.
abbrev pub end_stream :
    ℕ → ExecRef → ℕ → StreamEnd → List StreamChunk → StreamManager → StreamManager
end_stream now ref ch ending chunks s =
    let s' = put_sent ch chunks s in
    close_stream ref ch (record s' {
      manager = end_run (mark_ended now ref.id ending) (end_topic ending) now ref s'.manager;
    })

unfoldable pub after_pump : ℕ → ExecRef → ℕ → Pumped → StreamManager → StreamRun
after_pump now ref ch (over ending chunks) s = stream_ended (end_stream now ref ch ending chunks s)
after_pump now ref ch (stuck_sending chunks) s = stream_waits (put_sent ch chunks s)
after_pump now ref ch (listening chunks) s = stream_waits (put_sent ch chunks s)

-- What a streamed run meets: the error of the provider's `Stream`, the events of its loop, and the
-- reader of its channel.
pub record StreamWorld : Type 0 where
  pub started : GoError
  pub events : List StreamEvent
  pub reads : ℕ

-- `runStreamExecution`.
unfoldable pub run_stream_execution : StreamWorld → ℕ → ExecRef → ℕ → StreamManager → StreamRun
unfolding pump_from after_pump
run_stream_execution w now ref ch s =
    after_pump now ref ch
      (pump_from w.started w.reads ref.id w.events (sent_into (get_elem? s.channels ch))) s

-- `runExecution`: an execution whose provider is found and which has a channel by then is streamed.
unfoldable pub run_any :
    {P : Type 0}
    → Registry P
    → (Provider P → RunHandler)
    → StreamWorld
    → ℕ
    → ℕ
    → ExecRef
    → StreamManager
    → StreamRun
run_any registry chained w now later ref s =
    let plain = record s { manager = run_execution registry chained now later ref s.manager } in
    elim (resolve ref.provider_ref registry).0 [
      | none ↦ stream_ended plain
      | some p ↦ elim (lookup ref.id s.stream_chans) [
        | none ↦ stream_ended plain
        | some ch ↦
            run_stream_execution w later ref ch (record s { manager = begin_run now ref s.manager })
      ]
    ]
