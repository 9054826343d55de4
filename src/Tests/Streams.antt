-- ===== src/Tests/Streams.antt =====
-- Streamed runs and batches at concrete inputs.
use chukrun.Base.{ℕ, ◌≡◌, refl, inl, false, List, [], ◌∷◌, ◌++◌, none, some, arith, map, get_elem?}
use chukrun.Base.Dict.{lookup}
use chukrun.Errors.{GoError, nil, plain_error}
use chukrun.Execution.Types.{Execution, running}
use chukrun.Execution.Registry.{resolve}
use chukrun.Execution.Manager.Outcome.{Finished}
use chukrun.Execution.Manager.Batch.{BatchItem, Batched, submit_batch, submit_batch-Batched}
use chukrun.Execution.Manager.Streams.{
  StreamChunk, StreamManager, received, run_over, overtime, error_chunk, stream_ended, stream_waits,
  StreamWorld, run_any, open_stream,
}
use chukrun.Execution.Manager.Streams.Delivery.{overruns, Delivered, run_any-Delivered}
use chukrun.Execution.Manager.Streams.Hanging.{reader_gone, left_open}
use chukrun.Tests.Running.{
  request, the_ref, manager_with, execution_in, holding, holding-SlotsHeld, the_ref-Holding,
  one_provider, handler,
}

abbrev chunk : StreamChunk
chunk = record { id = "exec-1"; content = "hi"; token_usage = none; error = nil }

abbrev late : GoError
late = plain_error "context deadline exceeded"

abbrev seventeen : List StreamChunk
seventeen =
    chunk ∷ chunk ∷ chunk ∷ chunk ∷ chunk ∷ chunk ∷ chunk ∷ chunk ∷ chunk ∷ chunk ∷ chunk ∷ chunk
    ∷ chunk ∷ chunk ∷ chunk ∷ chunk ∷ chunk ∷ []

-- The run of an execution with a channel, or without one.
abbrev unopened : StreamManager
unopened = record { manager = holding; stream_chans = []; channels = [] }

abbrev opened : StreamManager
opened = record unopened {
  stream_chans = ("exec-1", 0) ∷ [];
  channels = record { sent = []; is_closed = false } ∷ [];
}

-- A provider whose context ends after these chunks, and a caller that takes one.
abbrev world_of : List StreamChunk → StreamWorld
world_of chunks = record {
  started = nil;
  events = map received chunks ++ run_over late ∷ [];
  reads = 1;
}

provider_found :
    (resolve "openai-primary" one_provider).0 ≡ some (record { name = "openai-primary"; self = 1 })
unfolding resolve lookup
provider_found = refl

channel_found : lookup "exec-1" opened.stream_chans ≡ some 0
unfolding lookup
channel_found = refl

no_channel : lookup {V = ℕ} "exec-1" [] ≡ none
unfolding lookup
no_channel = refl

run_any-Delivered_example :
    (s' : StreamManager) × (run_any one_provider handler (world_of (chunk ∷ [])) 3 9 the_ref opened
      ≡ stream_ended s')
    × Delivered 9 the_ref 0 (chunk ∷ error_chunk "exec-1" late ∷ []) (overtime late) opened s'
run_any-Delivered_example =
    run_any-Delivered one_provider handler (world_of (chunk ∷ [])) 3 9 the_ref opened
      (execution_in running) (record { name = "openai-primary"; self = 1 }) 0
      (chunk ∷ error_chunk "exec-1" late ∷ []) (overtime late) holding-SlotsHeld the_ref-Holding
      refl provider_found channel_found refl (overruns (chunk ∷ []) late [] 1 (omega arith))

reader_gone_example :
    (s' : StreamManager) × (run_any one_provider handler
        (world_of (chunk ∷ seventeen))
        3
        9
        the_ref
        opened
      ≡ stream_waits s')
    × (s'.manager.runs ≡ holding.runs)
    × (s'.manager.sem ≡ holding.sem)
    × ((e' : Execution) × (get_elem? s'.manager.store 0 ≡ some e') × (e'.state ≡ running))
    × (get_elem? s'.channels 0 ≡ some (record { sent = seventeen; is_closed = false }))
reader_gone_example =
    reader_gone one_provider handler (world_of (chunk ∷ seventeen)) 3 9 the_ref opened
      (execution_in running) (record { name = "openai-primary"; self = 1 }) 0 seventeen chunk
      (run_over late ∷ []) refl provider_found channel_found refl refl refl (omega arith)

left_open_example :
    (s1 : StreamManager) × (run_any one_provider handler (world_of []) 3 9 the_ref unopened
      ≡ stream_ended s1)
    × Finished the_ref holding s1.manager
    × (s1.channels ≡ [])
    × (s1.stream_chans ≡ [])
    × (let (s2, ch) = open_stream "exec-1" s1 in
        (get_elem? s2.channels ch ≡ some (record { sent = []; is_closed = false }))
        × (lookup "exec-1" s2.stream_chans ≡ some ch))
left_open_example =
    left_open one_provider handler (world_of []) 3 9 the_ref unopened (execution_in running)
      holding-SlotsHeld the_ref-Holding refl (inl no_channel)

abbrev two_items : List BatchItem
two_items =
    record { now = 5; generated = "exec-8"; req = request }
    ∷ record { now = 6; generated = "exec-9"; req = record request { provider_ref = "" } }
    ∷ []

submit_batch-Batched_example :
    Batched "batch-1" two_items
      (manager_with running [] [])
      (submit_batch "batch-1" two_items (manager_with running [] []))
submit_batch-Batched_example = submit_batch-Batched "batch-1" two_items (manager_with running [] [])
