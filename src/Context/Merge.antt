-- ===== src/Context/Merge.antt =====
-- `Merge` of two contexts (core/context/context.go), for the three strategies that it names. The
-- variables of a session are changed in the store, and the merged context derives from the base.
pub mod Fields
pub mod Metadata
pub mod Picked
pub mod Rules
pub mod Vars
use chukrun.Base.{
  ℕ, String, Bool, true, false, not, ◌&&◌, List, [], ◌∷◌, Option, none, some, str_eq, get_elem?,
  if◌then◌else◌,
}
use chukrun.Base.Int.{ℤ, pos, ltb_ℤ, eqb_ℤ}
use chukrun.Base.Dict.{Dict, lookup, insert, keys, is_some}
use chukrun.Base.Text.{◌<>◌}
use chukrun.Context.Layers.{
  CostBudget, RuntimeLayer, SessionLayer, UserLayer, RequestLayer, Ctx, get_session, layer_metadata,
}
use chukrun.Context.Session.{SessionStore, get_var, set_var, or_no_vars}
use chukrun.Errors.{GoError, nil, plain_error, is_nil}
use chukrun.Execution.Types.{Value}

pub data ConflictStrategy : Type 0 where
  overlay_wins base_wins error_on_conflict : ConflictStrategy

-- The loop of `mergeSessionKeys` over the overlay's keys.
unfoldable pub merge_session_keys :
    ConflictStrategy → ℕ → ℕ → List String → SessionStore → SessionStore × GoError
merge_session_keys rule base overlay [] ss = (ss, nil)
merge_session_keys rule base overlay (key ∷ rest) ss = elim (get_var overlay key ss) [
  | none ↦ merge_session_keys rule base overlay rest ss
  | some value ↦ elim (get_var base key ss) [
    | none ↦ merge_session_keys rule base overlay rest (set_var base key value ss)
    | some old ↦ elim rule [
      | error_on_conflict ↦ (ss, plain_error ("conflict on session key: " <> key))
      | overlay_wins ↦ merge_session_keys rule base overlay rest (set_var base key value ss)
      | base_wins ↦ merge_session_keys rule base overlay rest ss
    ]
  ]
]

-- `mergeSession`.
unfoldable pub take_session : SessionLayer → Ctx → Ctx
take_session sl ctx = record ctx {
  session = some sl;
  compat_session_id = some sl.session_id;
  compat_user_id = some sl.session_user;
}

unfoldable pub merge_states :
    ConflictStrategy → Option ℕ → Option ℕ → SessionStore → SessionStore × GoError
unfolding merge_session_keys
merge_states rule (some base) (some overlay) ss =
    merge_session_keys rule base overlay (keys (or_no_vars (get_elem? ss.vars overlay))) ss
merge_states rule _ _ ss = (ss, nil)

unfoldable pub merge_session :
    ConflictStrategy → Ctx → Ctx → Ctx → SessionStore → SessionStore × Ctx × GoError
unfolding take_session merge_states
merge_session rule base overlay merged ss = elim overlay.session [
  | none ↦ (ss, merged, nil)
  | some sl ↦ elim base.session [
    | none ↦ (ss, take_session sl merged, nil)
    | some _ ↦
        let (ss', err) = merge_states rule (get_session base) (get_session overlay) ss in
        (ss', merged, err)
  ]
]

-- `mergeUser`.
unfoldable pub take_user : UserLayer → Ctx → Ctx
take_user ul ctx = record ctx { user = some ul; compat_user_id = some ul.user_id }

unfoldable pub merge_user : ConflictStrategy → Ctx → Ctx → Ctx → Ctx × GoError
unfolding take_user
merge_user rule base overlay merged = elim overlay.user [
  | none ↦ (merged, nil)
  | some o ↦ elim base.user [
    | none ↦ (take_user o merged, nil)
    | some b ↦ elim rule [
      | error_on_conflict ↦ (merged, plain_error "conflict on user layer")
      | overlay_wins ↦ (take_user o merged, nil)
      | base_wins ↦ (take_user b merged, nil)
    ]
  ]
]

abbrev pub or_text : String → String → String
or_text base overlay = if str_eq overlay "" then base else overlay

abbrev pub or_budget : Option CostBudget → Option CostBudget → Option CostBudget
or_budget base none = base
or_budget base (some budget) = some budget

-- `applyOverlayFields`, on the base's layer.
unfoldable pub apply_overlay_fields : RequestLayer → RequestLayer → RequestLayer
apply_overlay_fields merged overlay = record merged {
  execution_id = or_text merged.execution_id overlay.execution_id;
  parent_execution_id = or_text merged.parent_execution_id overlay.parent_execution_id;
  trace_id = or_text merged.trace_id overlay.trace_id;
  deadline = if eqb_ℤ overlay.deadline (pos 0) then merged.deadline else overlay.deadline;
  priority = or_text merged.priority overlay.priority;
  cost_budget = or_budget merged.cost_budget overlay.cost_budget;
  attempt = if ltb_ℤ (pos 0) overlay.attempt then overlay.attempt else merged.attempt;
}

-- `mergeRequestFields`.
unfoldable pub merge_request_fields :
    ConflictStrategy → RequestLayer → RequestLayer → RequestLayer × GoError
unfolding apply_overlay_fields
merge_request_fields overlay_wins base overlay = (apply_overlay_fields base overlay, nil)
merge_request_fields base_wins base overlay = (base, nil)
merge_request_fields error_on_conflict base overlay =
    if not (str_eq overlay.execution_id "") && not (str_eq overlay.execution_id base.execution_id)
    then (base, plain_error "conflict on execution_id")
    else (base, nil)

-- The second loop of `mergeRequestMetadata`, over the overlay's entries.
unfoldable pub merge_metadata : ConflictStrategy → Dict String → Dict String → Dict String × GoError
merge_metadata rule merged [] = (merged, nil)
merge_metadata rule merged ((key, value) ∷ rest) = elim (lookup key merged) [
  | none ↦ merge_metadata rule (insert key value merged) rest
  | some old ↦ elim rule [
    | error_on_conflict ↦ (merged, plain_error ("conflict on metadata key: " <> key))
    | overlay_wins ↦ merge_metadata rule (insert key value merged) rest
    | base_wins ↦ merge_metadata rule merged rest
  ]
]

-- `mergeRequest`.
unfoldable pub take_request : RequestLayer → Ctx → Ctx
take_request req ctx = record ctx {
  request = some req;
  compat_trace_id = some req.trace_id;
  compat_execution_id = some req.execution_id;
}

unfoldable pub merge_layers : ConflictStrategy → RequestLayer → RequestLayer → Ctx → Ctx × GoError
unfolding merge_request_fields merge_metadata take_request
merge_layers rule b o merged =
    let (fields, conflict) = merge_request_fields rule b o in
    let (metadata, clash) =
      merge_metadata rule (layer_metadata (some b)) (layer_metadata (some o)) in
    if not (is_nil conflict)
    then (merged, conflict)
    else if not (is_nil clash)
    then (merged, clash)
    else (take_request (record fields { metadata = some metadata }) merged, nil)

unfoldable pub merge_request : ConflictStrategy → Ctx → Ctx → Ctx → Ctx × GoError
unfolding take_request merge_layers
merge_request rule base overlay merged = elim overlay.request [
  | none ↦ (merged, nil)
  | some o ↦ elim base.request [
    | none ↦ (take_request o merged, nil)
    | some b ↦ merge_layers rule b o merged
  ]
]

-- Both contexts come from runtimes, and not from the same.
unfoldable pub is_cross_runtime : Option RuntimeLayer → Option RuntimeLayer → Bool
is_cross_runtime (some b) (some o) = not (str_eq b.instance_id o.instance_id)
is_cross_runtime _ _ = false

-- `Merge`: the store, the merged context if there is no error, and the error.
unfoldable pub merge :
    ConflictStrategy → Ctx → Ctx → SessionStore → SessionStore × Option Ctx × GoError
unfolding is_cross_runtime
merge rule base overlay ss =
    let (ss', c1, e1) = merge_session rule base overlay base ss in
    let (c2, e2) = merge_user rule base overlay c1 in
    let (c3, e3) = merge_request rule base overlay c2 in
    if is_cross_runtime base.runtime overlay.runtime
    then (ss, none, plain_error "cross-runtime merge rejected")
    else if not (is_nil e1)
    then (ss', none, e1)
    else if not (is_nil e2)
    then (ss', none, e2)
    else if not (is_nil e3)
    then (ss', none, e3)
    else (ss', some c3, nil)
