-- ===== src/Execution/Manager/Streams/Hanging.antt =====
-- Streams (core/execution/manager.go) that do not come to an end: a caller that stops to take chunks
-- keeps the run and its slots, and a run may end without its caller's channel.
use chukrun.Base.{
  ℕ, ◌+◌, ◌≡◌, refl, ◌∙◌, ◌⊎◌, inl, inr, false, List, [], ◌∷◌, ◌++◌, none, some, arith, length,
  get_elem?, get_elem?-modify, get_elem?-append_self, map, Option-cases,
}
use chukrun.Base.Dict.{lookup, lookup-insert_self}
use chukrun.Errors.{nil}
use chukrun.Execution.Types.{running, Execution}
use chukrun.Execution.Registry.{Registry, Provider, resolve}
use chukrun.Execution.Manager.State.{ExecRef}
use chukrun.Execution.Manager.Slots.{SlotsHeld, Holding}
use chukrun.Execution.Manager.Outcome.{Finished, run_execution-Finished}
use chukrun.Execution.Manager.Run.{RunHandler, begin_run, run_execution}
use chukrun.Execution.Manager.Streams.{
  StreamChunk, StreamManager, StreamEvent, received, stuck_sending, pump, pump_from, fits, put_sent,
  stream_ended, stream_waits, after_pump, StreamWorld, run_stream_execution, run_any, open_stream,
}
use chukrun.Execution.Manager.Streams.Delivery.{pump_all}

full :
    (reads : ℕ) (chunks : List StreamChunk) → length chunks ≡ reads + 16 → fits reads chunks ≡ false
full reads chunks many = ground (arith, many)

-- The send of one chunk more.
pump_stuck :
    (w : StreamWorld) (ref : ExecRef) (chunks : List StreamChunk) (next : StreamChunk)
    (rest : List StreamEvent)
    → w.started ≡ nil
    → w.events ≡ map received chunks ++ received next ∷ rest
    → length chunks ≡ w.reads + 16
    → pump_from w.started w.reads ref.id w.events [] ≡ stuck_sending chunks
unfolding pump_from pump
pump_stuck w ref chunks next rest starts events many =
    rw (starts, events)
      (pump_all w.reads ref.id chunks (received next ∷ rest) [] (omega arith)
        ∙ rw (full w.reads chunks many) refl)

-- A caller takes no more than `reads` chunks of a stream that the provider has begun and of which
-- it has more than `reads + 16`. The run of an execution whose channel was there and empty then
-- waits in a send and keeps its slots; its execution is RUNNING and its channel open with the first
-- `reads + 16` chunks, whatever comes afterwards, be it the end of the run's context.
pub reader_gone :
    {P : Type 0} (registry : Registry P) (chained : Provider P → RunHandler) (w : StreamWorld)
    (now later : ℕ) (ref : ExecRef) (s : StreamManager) (e : Execution) (p : Provider P) (ch : ℕ)
    (chunks : List StreamChunk) (next : StreamChunk) (rest : List StreamEvent)
    → get_elem? s.manager.store ref.address ≡ some e
    → (resolve ref.provider_ref registry).0 ≡ some p
    → lookup ref.id s.stream_chans ≡ some ch
    → get_elem? s.channels ch ≡ some (record { sent = []; is_closed = false })
    → w.started ≡ nil
    → w.events ≡ map received chunks ++ received next ∷ rest
    → length chunks ≡ w.reads + 16
    → (s' : StreamManager) × (run_any registry chained w now later ref s ≡ stream_waits s')
      × (s'.manager.runs ≡ s.manager.runs)
      × (s'.manager.sem ≡ s.manager.sem)
      × ((e' : Execution) × (get_elem? s'.manager.store ref.address ≡ some e')
          × (e'.state ≡ running))
      × (get_elem? s'.channels ch ≡ some (record { sent = chunks; is_closed = false }))
unfolding run_any run_stream_execution after_pump begin_run
reader_gone registry chained w now later ref s e p ch chunks next rest at found there empty starts
      events many =
    (
      put_sent ch chunks (record s { manager = begin_run now ref s.manager }),
      rw (run_any, found, there, empty, pump_stuck w ref chunks next rest starts events many) refl,
      refl,
      refl,
      (
        _,
        get_elem?-modify ref.address _ _ (get_elem?-modify ref.address _ s.manager.store at),
        refl,
      ),
      get_elem?-modify ch _ s.channels empty,
    )

module _ {P : Type 0} (registry : Registry P) (chained : Provider P → RunHandler) (w : StreamWorld)
    (now later : ℕ) (ref : ExecRef) (s : StreamManager) where
  unstreamed :
      (lookup ref.id s.stream_chans ≡ none) ⊎ ((resolve ref.provider_ref registry).0 ≡ none)
      → run_any registry chained w now later ref s
        ≡ stream_ended
            (record s { manager = run_execution registry chained now later ref s.manager })
  unfolding run_any
  unstreamed (inr missing) = rw (run_any, missing) refl
  unstreamed (inl early) = elim (Option-cases (resolve ref.provider_ref registry).0) [
    | inl missing ↦ rw (run_any, missing) refl
    | inr (p, found) ↦ rw (run_any, found, early) refl
  ]

  -- A run that begins before `Stream` has put its channel into the map, or whose provider is not
  -- found, finishes, gives its slots back and touches no stream: a channel that was open stays open,
  -- and the channel that `Stream` returns afterwards is open with nothing in it.
  pub left_open :
      (e : Execution)
      → SlotsHeld s.manager
      → Holding ref s.manager.runs
      → get_elem? s.manager.store ref.address ≡ some e
      → (lookup ref.id s.stream_chans ≡ none) ⊎ ((resolve ref.provider_ref registry).0 ≡ none)
      → (s1 : StreamManager) × (run_any registry chained w now later ref s ≡ stream_ended s1)
        × Finished ref s.manager s1.manager
        × (s1.channels ≡ s.channels)
        × (s1.stream_chans ≡ s.stream_chans)
        × (let (s2, ch) = open_stream ref.id s1 in
            (get_elem? s2.channels ch ≡ some (record { sent = []; is_closed = false }))
            × (lookup ref.id s2.stream_chans ≡ some ch))
  unfolding open_stream
  left_open e slots h at cause = (
    record s { manager = run_execution registry chained now later ref s.manager },
    unstreamed cause,
    run_execution-Finished registry chained now later ref s.manager e slots h at,
    refl,
    refl,
    (
      get_elem?-append_self s.channels _,
      lookup-insert_self ref.id (length s.channels) s.stream_chans,
    ),
  )
