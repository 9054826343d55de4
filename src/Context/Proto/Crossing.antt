-- ===== src/Context/Proto/Crossing.antt =====
-- What a context keeps when it crosses a process boundary as a message, and what it loses.
use mathlib.Core.List.{Memᴰ}
use chukrun.Base.{
  ℕ, ◌+◌, ◌≤◌, ◌≡◌, refl, sym, ◌∙◌, ap, subst, ◌≢◌, inl, inr, String, false, [], ◌∷◌, Option, none,
  some, arith, str_eq, eq_iff, ltb, Bool-cases, if◌then◌else◌,
}
use chukrun.Base.Int.{ℤ}
use chukrun.Base.Dict.{Dict, lookup, insert, lookup-insert, str_eq_of_ne}
use chukrun.Context.Layers.{
  FloatOps, Ctx, RequestLayer, layer_metadata, get_session_id, get_user_id, get_execution_id,
  get_parent_execution_id, get_trace_id, get_priority, get_metadata, with_user,
}
use chukrun.Context.Priority.{PriorityClass, priority_order, each_class}
use chukrun.Context.Derive.{
  metadata_size, metadata_limit, with_metadata, with_execution, with_session, with_cost_budget,
  new_root_context, layer_or_zero,
}
use chukrun.Context.Derive.Metadata.{metadata_size-insert, computed_size}
use chukrun.Context.Merge.Metadata.{Distinct}
use chukrun.Context.Proto.{
  ContextProto, CostBudgetProto, Shared, priority_to_int, int_to_priority, to_proto, from_proto,
  identify, restore_ids, restore_execution, restore_budget, restore_metadata, parse_deadline,
}

-- The entries of a message, written one after the other.
abbrev insert_all : Dict String → Dict String → Dict String
insert_all old [] = old
insert_all old ((key, value) ∷ rest) = insert_all (insert key value old) rest

or_old : Option String → Option String → Option String
or_old none old = old
or_old (some v) old = some v

lookup-insert_all :
    (asked : String) (old m : Dict String)
    → Distinct m
    → lookup asked (insert_all old m) ≡ or_old (lookup asked m) (lookup asked old)
unfolding lookup or_old
lookup-insert_all asked old [] once = refl
lookup-insert_all asked old ((key, value) ∷ rest) (new, once) = ground (
  arith,
  eq_iff key asked,
  lookup-insert key asked value old,
  lookup-insert_all asked (insert key value old) rest once,
)

abbrev holding : Ctx → RequestLayer → Dict String → Ctx
holding c layer m = record c { request = some (record layer { metadata = some m }) }

accepted_entry :
    (c : Ctx) (layer : RequestLayer) (old : Dict String) (key value : String)
    → metadata_size (insert key value old) ≤ metadata_limit
    → (with_metadata (holding c layer old) key value).0 ≡ holding c layer (insert key value old)
unfolding with_metadata
accepted_entry c layer old key value fits =
    rw
      (
        with_metadata,
        computed_size key value old,
        not_over (metadata_size (insert key value old)) fits,
      )
      refl
  where
    not_over : (n : ℕ) → n ≤ metadata_limit → ltb metadata_limit n ≡ false
    not_over n h = ground arith

-- Within the limit no entry is refused.
restore_all :
    (c : Ctx) (layer : RequestLayer) (old m : Dict String)
    → metadata_size old + metadata_size m ≤ metadata_limit
    → restore_metadata m (holding c layer old) ≡ holding c layer (insert_all old m)
unfolding restore_metadata metadata_size
restore_all c layer old [] fits = refl
restore_all c layer old ((key, value) ∷ rest) fits =
    ap (λ x. restore_metadata rest x)
      (accepted_entry c layer old key value (omega (arith, metadata_size-insert key value old)))
    ∙ restore_all c layer (insert key value old) rest
        (omega (arith, metadata_size-insert key value old))

-- A context with nothing of an execution.
abbrev bare : Ctx → Ctx
bare c = record c { request = none; compat_trace_id = none; compat_execution_id = none }

-- A context that was rebuilt from a message on top of `c`, with these metadata.
record Rebuilt (proto : ContextProto) (c : Ctx) (m : Dict String) (ctx : Ctx) : Type 0 where
  base : Ctx
  layer : RequestLayer
  form : ctx ≡ holding base layer m
  execution : layer.execution_id ≡ proto.execution_id
  parent : layer.parent_execution_id ≡ proto.parent_execution_id
  trace : layer.trace_id ≡ proto.trace_id
  priority : layer.priority ≡ int_to_priority proto.priority
  session : base.session ≡ c.session
  session_id : base.compat_session_id ≡ c.compat_session_id
  user : base.user ≡ c.user
  user_id : base.compat_user_id ≡ c.compat_user_id

abbrev layer_of : Ctx → RequestLayer
layer_of ctx = layer_or_zero ctx.request

kept_empty : (s : String) → (if str_eq s "" then "" else s) ≡ s
kept_empty s = elim (Bool-cases (str_eq s "")) [
  | inl empty ↦ rw empty (sym ((eq_iff s "").0 empty))
  | inr other ↦ rw other refl
]

Rebuilt-execution :
    (now : ℤ) (proto : ContextProto) (c : Ctx)
    → proto.execution_id ≢ ""
    → proto.trace_id ≢ ""
    → Rebuilt proto c [] (restore_execution now proto (bare c))
unfolding restore_execution restore_ids with_execution get_trace_id get_execution_id
Rebuilt-execution now proto c known traced =
    rw (restore_execution, str_eq_of_ne proto.execution_id "" known)
      (record {
        base =
            with_execution now (bare c) proto.execution_id
              (parse_deadline now proto.deadline_unix_ms) (int_to_priority proto.priority);
        layer = layer_of (
            restore_ids proto (
              with_execution now (bare c) proto.execution_id
                (parse_deadline now proto.deadline_unix_ms) (int_to_priority proto.priority)));
        form = refl;
        execution = refl;
        parent = kept_empty proto.parent_execution_id;
        trace = rw (str_eq_of_ne proto.trace_id "" traced) refl;
        priority = refl;
        session = ground arith;
        session_id = ground arith;
        user = ground arith;
        user_id = ground arith;
      })

Rebuilt-budget :
    (f : FloatOps) (proto : ContextProto) (c ctx : Ctx) (b : Option CostBudgetProto) (w : Shared)
    → Rebuilt proto c [] ctx
    → Rebuilt proto c [] (restore_budget f b ctx w).1
unfolding restore_budget with_cost_budget
Rebuilt-budget f proto c ctx none w r = r
Rebuilt-budget f proto c ctx (some b) w r = record {
  base = r.base;
  layer = layer_of (restore_budget f (some b) (holding r.base r.layer []) w).1;
  form = ap (λ x. (restore_budget f (some b) x w).1) r.form;
  execution = r.execution;
  parent = r.parent;
  trace = r.trace;
  priority = r.priority;
  session = r.session;
  session_id = r.session_id;
  user = r.user;
  user_id = r.user_id;
}

Rebuilt-metadata :
    (proto : ContextProto) (c ctx : Ctx)
    → metadata_size proto.metadata ≤ metadata_limit
    → Rebuilt proto c [] ctx
    → Rebuilt proto c (insert_all [] proto.metadata) (restore_metadata proto.metadata ctx)
unfolding metadata_size
Rebuilt-metadata proto c ctx small r = record {
  base = r.base;
  layer = r.layer;
  form =
      ap (λ x. restore_metadata proto.metadata x) r.form
      ∙ restore_all r.base r.layer [] proto.metadata (omega (arith, small));
  execution = r.execution;
  parent = r.parent;
  trace = r.trace;
  priority = r.priority;
  session = r.session;
  session_id = r.session_id;
  user = r.user;
  user_id = r.user_id;
}

-- What survives: everything that names the execution, its session and its user, the priority, and
-- every entry of the metadata.
pub record Survives (before after : Ctx) : Type 0 where
  pub execution : get_execution_id after ≡ get_execution_id before
  pub parent : get_parent_execution_id after ≡ get_parent_execution_id before
  pub trace : get_trace_id after ≡ get_trace_id before
  pub priority : get_priority after ≡ get_priority before
  pub session : get_session_id after ≡ get_session_id before
  pub user : get_user_id after ≡ get_user_id before
  pub metadata : (key : String) → get_metadata after key ≡ get_metadata before key

priority_round_trip :
    (p : PriorityClass) → Memᴰ p priority_order → int_to_priority (priority_to_int p) ≡ p
unfolding int_to_priority priority_to_int
priority_round_trip =
    each_class (λ p. int_to_priority (priority_to_int p) ≡ p) refl refl refl refl refl

-- A context that has the identity of a message, and nothing of its execution yet.
record Identified (proto : ContextProto) (c : Ctx) : Type 0 where
  is_bare : bare c ≡ c
  session : get_session_id c ≡ proto.session_id
  user : get_user_id c ≡ proto.user_id

identify-Identified :
    (now : ℤ) (instance_id version : String) (proto : ContextProto) (w : Shared)
    → Identified proto (identify now proto (new_root_context instance_id version) w).1
unfolding identify new_root_context with_session with_user get_session_id get_user_id
identify-Identified now instance_id version proto w =
    elim (Bool-cases (str_eq proto.session_id "")) [
      | inr in_session ↦
          rw (identify, in_session) (record { is_bare = refl; session = refl; user = refl })
      | inl no_session ↦
          let empty : proto.session_id ≡ "" = (eq_iff proto.session_id "").0 no_session in
          elim (Bool-cases (str_eq proto.user_id "")) [
            | inl no_user ↦
                rw (identify, no_session, no_user)
                  (record {
                    is_bare = refl;
                    session = sym empty;
                    user = sym ((eq_iff proto.user_id "").0 no_user);
                  })
            | inr by_user ↦
                rw (identify, no_session, by_user)
                  (record { is_bare = refl; session = sym empty; user = refl })
          ]
    ]

Rebuilt-session :
    {proto : ContextProto} {c ctx : Ctx} {m : Dict String}
    → Rebuilt proto c m ctx
    → get_session_id ctx ≡ get_session_id c
unfolding get_session_id
Rebuilt-session {proto} {c} {ctx} {m} r =
    ap get_session_id r.form ∙ ground (arith, r.session, r.session_id)

Rebuilt-user :
    {proto : ContextProto} {c ctx : Ctx} {m : Dict String}
    → Rebuilt proto c m ctx
    → get_user_id ctx ≡ get_user_id c
unfolding get_user_id
Rebuilt-user {proto} {c} {ctx} {m} r =
    ap get_user_id r.form ∙ ground (arith, r.session, r.user, r.user_id)

from_proto-Rebuilt :
    (f : FloatOps) (now : ℤ) (instance_id version : String) (proto : ContextProto) (w : Shared)
    → proto.execution_id ≢ ""
    → proto.trace_id ≢ ""
    → metadata_size proto.metadata ≤ metadata_limit
    → Rebuilt proto
        (identify now proto (new_root_context instance_id version) w).1
        (insert_all [] proto.metadata)
        (from_proto f now instance_id version proto w).1
unfolding from_proto
from_proto-Rebuilt f now instance_id version proto w known traced small =
    let c1 = (identify now proto (new_root_context instance_id version) w).1 in
    let w1 = (identify now proto (new_root_context instance_id version) w).0 in
    Rebuilt-metadata proto c1
      (restore_budget f proto.cost_budget (restore_execution now proto c1) w1).1 small
      (Rebuilt-budget f proto c1 (restore_execution now proto c1) proto.cost_budget w1 (
        subst (λ c. Rebuilt proto c1 [] (restore_execution now proto c))
          (identify-Identified now instance_id version proto w).is_bare
          (Rebuilt-execution now proto c1 known traced)))

-- A context that becomes a message and is read again, in any runtime and at any time, keeps the ids
-- of its execution, its parent, its trace, its session and its user, its priority and its metadata,
-- if it has an execution and a trace, one of the five priorities, and metadata within the limit.
pub from_proto-to_proto :
    (f : FloatOps) (now : ℤ) (instance_id version : String) (ctx : Ctx) (w : Shared)
    → get_execution_id ctx ≢ ""
    → get_trace_id ctx ≢ ""
    → Memᴰ (get_priority ctx) priority_order
    → Distinct (layer_metadata ctx.request)
    → metadata_size (layer_metadata ctx.request) ≤ metadata_limit
    → Survives ctx (from_proto f now instance_id version (to_proto f w.memory ctx) w).1
unfolding to_proto get_execution_id get_parent_execution_id get_trace_id get_priority get_metadata
    or_old lookup
from_proto-to_proto f now instance_id version ctx w known traced class once small =
    let proto = to_proto f w.memory ctx in
    let r = from_proto-Rebuilt f now instance_id version proto w known traced small in
    let i = identify-Identified now instance_id version proto w in
    record {
      execution = ap get_execution_id r.form ∙ r.execution;
      parent = ap get_parent_execution_id r.form ∙ r.parent;
      trace = ap get_trace_id r.form ∙ r.trace;
      priority = ap get_priority r.form ∙ r.priority ∙ priority_round_trip (get_priority ctx) class;
      session = Rebuilt-session r ∙ i.session;
      user = Rebuilt-user r ∙ i.user;
      metadata = λ key.
          ap (λ x. get_metadata x key) r.form
          ∙ lookup-insert_all key [] (layer_metadata ctx.request) once
          ∙ or_nothing (lookup key (layer_metadata ctx.request));
    }
  where
    or_nothing : (o : Option String) → or_old o none ≡ o
    or_nothing none = refl
    or_nothing (some s) = refl
