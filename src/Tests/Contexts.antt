-- ===== src/Tests/Contexts.antt =====
-- The contexts at concrete inputs.
use chukrun.Base.{ℕ, String, ◌+◌, ◌≡◌, refl, [], ◌∷◌, Option, none, some, arith, ltb, leb}
use chukrun.Base.Int.{pos}
use chukrun.Base.Dict.{lookup, insert}
use chukrun.Context.Priority.{high}
use chukrun.Context.Layers.{
  FloatOps, SessionLayer, Ctx, get_execution_id, get_trace_id, get_priority,
}
use chukrun.Context.Session.{SessionStore, get_var, set_var, new_session_store}
use chukrun.Execution.Types.{other_value}
use chukrun.Context.Derive.{new_root_context, with_metadata, metadata_size}
use chukrun.Context.Derive.Metadata.{Stored, with_metadata-Stored}
use chukrun.Context.Derive.Lineage.{
  attempt, child, metadata, derive_all, Inherits, derive_all-Inherits,
}
use chukrun.Context.Merge.{
  merge_states, merge_session_keys, overlay_wins, merge, merge_session, merge_user, merge_request,
}
use chukrun.Context.Merge.Rules.{Merged, merge-Merged}
use chukrun.Context.Proto.{Shared, from_proto, to_proto}
use chukrun.Context.Proto.Crossing.{Survives, from_proto-to_proto}
use mathlib.Core.List.{Memᴰ}

-- Floats by natural numbers.
abbrev whole : FloatOps
whole = record {
  zero_f = 0;
  one_f = 1;
  add_f = λ a b. a + b;
  sub_f = λ a b. a;
  mul_f = λ a b. a;
  lt_f = ltb;
  le_f = leb;
  parse_f = λ s. none;
}

abbrev request_ctx : Ctx
request_ctx = record (new_root_context "node" "1") {
  request = some (record {
    execution_id = "exec-1";
    parent_execution_id = "exec-0";
    trace_id = "trace-1";
    deadline = pos 100;
    priority = high;
    cost_budget = none;
    attempt = pos 1;
    metadata = some (("k", "v") ∷ []);
  });
  expires = some (pos 100);
}

with_metadata-Stored_example : Stored request_ctx "k2" "w" (with_metadata request_ctx "k2" "w")
with_metadata-Stored_example = with_metadata-Stored request_ctx "k2" "w"

derive_all-Inherits_example : Inherits "trace-1" request_ctx (
    derive_all request_ctx (child (pos 3) "exec-2" none ∷ attempt (pos 2) ∷ metadata "k2" "w" ∷ []))
unfolding metadata_size
derive_all-Inherits_example =
    derive_all-Inherits "trace-1" request_ctx
      (child (pos 3) "exec-2" none ∷ attempt (pos 2) ∷ metadata "k2" "w" ∷ []) (λ e. cc)
      (record { layer = _; present = refl; traced = refl }) (omega arith)

-- Two sessions, with the variables at 0 and at 1.
abbrev session_at : String → ℕ → SessionLayer
session_at id state = record { session_id = id; session_user = "ann"; state = some state }

abbrev base_ctx : Ctx
base_ctx = record request_ctx { session = some (session_at "sess-1" 0) }

abbrev two_sessions : SessionStore
two_sessions = record new_session_store {
  vars =
      (("lang", other_value "en") ∷ [])
      ∷ (("lang", other_value "de") ∷ ("tone", other_value "dry") ∷ [])
      ∷ [];
}

abbrev overlay_ctx : Ctx
overlay_ctx = record (new_root_context "node" "1") {
  session = some (session_at "sess-2" 1);
  request = some (record {
    execution_id = "";
    parent_execution_id = "";
    trace_id = "";
    deadline = pos 0;
    priority = "";
    cost_budget = none;
    attempt = pos 0;
    metadata = some (("k", "new") ∷ []);
  });
}

abbrev answered : Option Ctx → Ctx
answered none = base_ctx
answered (some c) = c

abbrev merged : Ctx
merged = answered (merge overlay_wins base_ctx overlay_ctx two_sessions).1

merges : (merge overlay_wins base_ctx overlay_ctx two_sessions).1 ≡ some merged
unfolding merge new_root_context merge_session merge_user merge_request lookup get_var set_var
    merge_states merge_session_keys new_session_store insert
merges = refl

merge-Merged_example :
    Merged overlay_wins base_ctx overlay_ctx two_sessions
      (merge overlay_wins base_ctx overlay_ctx two_sessions).0
      merged
unfolding lookup new_root_context new_session_store
merge-Merged_example =
    merge-Merged overlay_wins base_ctx overlay_ctx two_sessions merged (refl, tt) (_, refl) merges

abbrev shared : Shared
shared = record { store = new_session_store; memory = λ i. 0; next_cell = 0 }

from_proto-to_proto_example :
    Survives request_ctx
      (from_proto whole (pos 7) "other" "2" (to_proto whole shared.memory request_ctx) shared).1
unfolding get_execution_id get_trace_id metadata_size lookup get_priority
from_proto-to_proto_example =
    from_proto-to_proto whole (pos 7) "other" "2" request_ctx shared (λ e. cc) (λ e. cc)
      (Memᴰ.tail (Memᴰ.head refl)) (refl, tt) (omega arith)
