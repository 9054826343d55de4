-- ===== src/Execution/Manager/Streams/Delivery.antt =====
-- What a streamed run (core/execution/manager.go) puts into the channel of its caller.
use chukrun.Base.{
  ℕ, ◌+◌, ◌<◌, ◌≤◌, ◌≡◌, refl, sym, ap, ◌∙◌, ◌≢◌, inl, inr, String, true, false, List, [], ◌∷◌,
  ◌++◌, none, some, arith, length, length-append, get_elem?, get_elem?-modify, map, eq_refl,
}
use mathlib.Core.List.{append-nil, append_assoc}
use chukrun.Base.Dict.{lookup, lookup-delete}
use chukrun.Errors.{GoError, nil, nil_cases}
use chukrun.Execution.Types.{is_terminal_state, ExecutionResult, Execution}
use chukrun.Execution.Registry.{Registry, Provider, resolve}
use chukrun.Execution.Manager.State.{ExecRef, notify_waiters, release_slots, signal}
use chukrun.Execution.Manager.Slots.{SlotsHeld, Holding}
use chukrun.Execution.Manager.Outcome.{Finished, finish}
use chukrun.Execution.Manager.Run.{RunHandler, begin_run}
use chukrun.Execution.Manager.Streams.{
  StreamChunk, StreamManager, StreamEvent, received, input_closed, run_over, StreamEnd, refused,
  drained, overtime, end_state, end_status, end_error, over, pump, pump_from, fits, error_chunk,
  end_stream, stream_ended, after_pump, StreamWorld, run_stream_execution, run_any,
}

-- The three courses of a streamed run whose caller takes what it is sent, by what it meets: the
-- chunks that go into the channel, and the end.
pub data Course (id : String) : StreamWorld → List StreamChunk → StreamEnd → Type 0 where
  refuses :
      (err : GoError) (events : List StreamEvent) (reads : ℕ)
      → err ≢ nil
      → Course id
          (record { started = err; events = events; reads = reads })
          (error_chunk id err ∷ [])
          (refused err)
  drains :
      (chunks : List StreamChunk) (rest : List StreamEvent) (reads : ℕ)
      → length chunks ≤ reads + 16
      → Course id
          (record {
            started = nil;
            events = map received chunks ++ input_closed ∷ rest;
            reads = reads;
          })
          chunks
          drained
  overruns :
      (chunks : List StreamChunk) (err : GoError) (rest : List StreamEvent) (reads : ℕ)
      → length chunks < reads + 16
      → Course id
          (record {
            started = nil;
            events = map received chunks ++ run_over err ∷ rest;
            reads = reads;
          })
          (chunks ++ error_chunk id err ∷ [])
          (overtime err)

fits_lem : (reads : ℕ) (sent : List StreamChunk) → length sent < reads + 16 → fits reads sent ≡ true
fits_lem reads sent room = ground arith

-- As many chunks as the caller takes, and 16 more, go through.
pub pump_all :
    (reads : ℕ) (id : String) (chunks : List StreamChunk) (rest : List StreamEvent)
    (sent : List StreamChunk)
    → length sent + length chunks ≤ reads + 16
    → pump reads id (map received chunks ++ rest) sent ≡ pump reads id rest (sent ++ chunks)
unfolding pump
pump_all reads id [] rest sent room = ap (pump reads id rest) (sym (append-nil sent))
pump_all reads id (c ∷ chunks) rest sent room = rw (fits_lem reads sent (omega arith)) (
    pump_all reads id chunks rest (sent ++ c ∷ []) (omega (arith, length-append {0} sent (c ∷ [])))
    ∙ ap (pump reads id rest) (append_assoc sent (c ∷ []) chunks))

Course-pump_from :
    {id : String} {w : StreamWorld} {chunks : List StreamChunk} {ending : StreamEnd}
    → Course id w chunks ending
    → pump_from w.started w.reads id w.events [] ≡ over ending chunks
unfolding pump_from pump
Course-pump_from (refuses err events reads bad) = elim (nil_cases err) [
  | inl (fine, no_err) ↦ absurd (bad no_err)
  | inr (some_text, some_err) ↦ rw (some_text, fits_lem reads [] (omega arith)) refl
]
Course-pump_from {id} (drains chunks rest reads room) =
    pump_all reads id chunks (input_closed ∷ rest) [] (omega arith)
Course-pump_from {id} (overruns chunks err rest reads room) =
    pump_all reads id chunks (run_over err ∷ rest) [] (omega arith)
    ∙ rw (fits_lem reads chunks room) refl

-- What a streamed run leaves: the chunks in its channel, which is closed and no longer in the map;
-- the execution in the state of the end, with the result that says so; and the run finished.
pub record Delivered (later : ℕ) (ref : ExecRef) (ch : ℕ) (chunks : List StreamChunk)
    (ending : StreamEnd) (before after : StreamManager) : Type 0 where
  pub filled : get_elem? after.channels ch ≡ some (record { sent = chunks; is_closed = true })
  pub forgotten : lookup ref.id after.stream_chans ≡ none
  pub execution : Execution
  pub stored : get_elem? after.manager.store ref.address ≡ some execution
  pub in_state : execution.state ≡ end_state ending
  pub stamped : execution.completed_at ≡ some later
  pub result : ExecutionResult
  pub answered : execution.result ≡ some result
  pub same_state : result.state ≡ end_state ending
  pub status : result.status ≡ end_status ending
  pub error : result.error ≡ end_error ending
  pub terminal : is_terminal_state execution.state ≡ true
  pub finished : Finished ref before.manager after.manager

terminal_end : (ending : StreamEnd) → is_terminal_state (end_state ending) ≡ true
unfolding is_terminal_state
terminal_end (refused err) = refl
terminal_end drained = refl
terminal_end (overtime err) = refl

-- An execution that holds a slot, whose provider is found and whose channel is there and empty, and
-- whose caller takes enough, is streamed to the end, whatever the middlewares are: the channel gets
-- the chunks of its course, in their order, with an error last if the provider or the time failed,
-- and is closed and forgotten; the execution ends in the state of that course with the time and the
-- result, and the run gives its slots back and wakes its waiters.
pub run_any-Delivered :
    {P : Type 0} (registry : Registry P) (chained : Provider P → RunHandler) (w : StreamWorld)
    (now later : ℕ) (ref : ExecRef) (s : StreamManager) (e : Execution) (p : Provider P) (ch : ℕ)
    (chunks : List StreamChunk) (ending : StreamEnd)
    → SlotsHeld s.manager
    → Holding ref s.manager.runs
    → get_elem? s.manager.store ref.address ≡ some e
    → (resolve ref.provider_ref registry).0 ≡ some p
    → lookup ref.id s.stream_chans ≡ some ch
    → get_elem? s.channels ch ≡ some (record { sent = []; is_closed = false })
    → Course ref.id w chunks ending
    → (s' : StreamManager) × (run_any registry chained w now later ref s ≡ stream_ended s')
      × Delivered later ref ch chunks ending s s'
unfolding run_any run_stream_execution after_pump begin_run notify_waiters release_slots signal
run_any-Delivered registry chained w now later ref s e p ch chunks ending slots h at found there
      empty course =
    (
      end_stream later ref ch ending chunks (record s { manager = begin_run now ref s.manager }),
      rw (run_any, found, there, empty, Course-pump_from course) refl,
      record {
        filled = get_elem?-modify ch _ _ (get_elem?-modify ch _ s.channels empty);
        forgotten = lookup-delete ref.id ref.id s.stream_chans ∙ rw (eq_refl ref.id) refl;
        execution = _;
        stored =
            get_elem?-modify ref.address _ _ (
              get_elem?-modify ref.address _ _ (get_elem?-modify ref.address _ s.manager.store at));
        in_state = refl;
        stamped = refl;
        result = _;
        answered = refl;
        same_state = refl;
        status = refl;
        error = refl;
        terminal = terminal_end ending;
        finished = finish ref s.manager _ _ slots h;
      },
    )
