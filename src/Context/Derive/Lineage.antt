-- ===== src/Context/Derive/Lineage.antt =====
-- What every derivation keeps of a context.
use chukrun.Base.{
  ◌≡◌, refl, sym, ◌∙◌, ap, subst, ◌≢◌, inl, inr, String, List, [], ◌∷◌, Option, none, some, arith,
  Bool-cases, Option-cases,
}
use chukrun.Base.Int.{ℤ, pos, ◌≤ℤ◌, ltb_ℤ, ◌+ℤ◌}
use chukrun.Base.Dict.{Dict, str_eq_of_ne}
use chukrun.Context.Layers.{CostBudget, Ctx, RequestLayer, get_trace_id, with_user}
use chukrun.Context.Priority.{PriorityClass}
use chukrun.Context.Session.{SessionStore}
use chukrun.Context.Derive.{
  with_session, with_execution, with_child_execution, with_attempt, with_metadata, with_cost_budget,
  with_sensitive_key, with_sensitive_variable, earlier, child_deadline,
}
use chukrun.Context.Derive.Metadata.{IsBounded, with_metadata-Stored, Stored, stored, refused}
use chukrun.Errors.{GoError}

-- The derivations, with what they are called with.
pub data Derivation : Type 0 where
  user : String → String → Dict String → Derivation
  session : ℤ → String → String → SessionStore → Derivation
  execution : ℤ → String → ℤ → PriorityClass → Derivation
  child : ℤ → String → Option ℤ → Derivation
  attempt : ℤ → Derivation
  metadata : String → String → Derivation
  budget : CostBudget → Derivation
  sensitive_key : String → Derivation
  sensitive_variable : String → String → Derivation

unfoldable pub derive : Ctx → Derivation → Ctx
derive ctx (user id org claims) = with_user ctx id org claims
derive ctx (session now id owner ss) = (with_session now ctx id owner ss).1
derive ctx (execution now id deadline priority) = with_execution now ctx id deadline priority
derive ctx (child now id timeout) = with_child_execution now ctx id timeout
derive ctx (attempt n) = with_attempt ctx n
derive ctx (metadata key value) = (with_metadata ctx key value).0
derive ctx (budget b) = with_cost_budget ctx b
derive ctx (sensitive_key key) = with_sensitive_key ctx key
derive ctx (sensitive_variable key printed) = with_sensitive_variable ctx key printed

unfoldable pub derive_all : Ctx → List Derivation → Ctx
derive_all ctx [] = ctx
derive_all ctx (d ∷ ds) = derive_all (derive ctx d) ds

-- A deadline that is not later than another; none is the latest.
abbrev pub NoLater : Option ℤ → Option ℤ → Type 0
NoLater a none = Unit {0}
NoLater none (some b) = ⊥
NoLater (some a) (some b) = a ≤ℤ b

-- A context with a request layer, whose trace is known.
pub record Traced (trace : String) (ctx : Ctx) : Type 0 where
  pub layer : RequestLayer
  pub present : ctx.request ≡ some layer
  pub traced : layer.trace_id ≡ trace

-- What is inherited: the trace, the runtime, the limit on the metadata, and a deadline that is not
-- later.
pub record Inherits (trace : String) (parent child : Ctx) : Type 0 where
  pub same_trace : Traced trace child
  pub same_runtime : child.runtime ≡ parent.runtime
  pub bounded : IsBounded child
  pub no_later : NoLater child.expires parent.expires

NoLater-refl : (d : Option ℤ) → NoLater d d
NoLater-refl none = tt
NoLater-refl (some d) = omega arith

NoLater-trans : (a b c : Option ℤ) → NoLater a b → NoLater b c → NoLater a c
NoLater-trans a b none h k = tt
NoLater-trans none none (some c) h k = k
NoLater-trans none (some b) (some c) h k = elim h [ ]
NoLater-trans (some a) none (some c) h k = elim k [ ]
NoLater-trans (some a) (some b) (some c) h k = omega (arith, h, k)

earlier-NoLater : (d : ℤ) (p : Option ℤ) → NoLater (some (earlier d p)) p
unfolding earlier
earlier-NoLater d none = tt
earlier-NoLater d (some p) = ground arith

execution-NoLater :
    (now : ℤ) (ctx : Ctx) (id : String) (deadline : ℤ) (priority : PriorityClass)
    → NoLater (with_execution now ctx id deadline priority).expires ctx.expires
unfolding with_execution
execution-NoLater now ctx id deadline priority = elim (Bool-cases (ltb_ℤ (pos 0) deadline)) [
  | inl timed ↦ rw (with_execution, timed) (earlier-NoLater (now +ℤ deadline) ctx.expires)
  | inr untimed ↦ rw (with_execution, untimed) (NoLater-refl ctx.expires)
]

child-NoLater :
    (now : ℤ) (ctx : Ctx) (id : String) (timeout : Option ℤ)
    → NoLater (with_child_execution now ctx id timeout).expires ctx.expires
unfolding with_child_execution
child-NoLater now ctx id timeout = elim (Option-cases (child_deadline now timeout ctx.expires)) [
  | inl open_ended ↦ rw (with_child_execution, open_ended) (NoLater-refl ctx.expires)
  | inr (d, chosen) ↦ rw (with_child_execution, chosen) (earlier-NoLater d ctx.expires)
]

-- A context whose request layer carries the trace.
abbrev traced_as : String → Ctx → RequestLayer → Ctx
traced_as trace c layer = record c { request = some (record layer { trace_id = trace }) }

module _ (trace : String) (known : trace ≢ "") where
  abbrev traced_ctx : Ctx → RequestLayer → Ctx
  traced_ctx c layer = traced_as trace c layer

  Stored-Inherits :
      (c : Ctx) (layer : RequestLayer) (key value : String) {r : Ctx × GoError}
      → IsBounded (traced_ctx c layer)
      → Stored (traced_ctx c layer) key value r
      → Inherits trace (traced_ctx c layer) r.0
  Stored-Inherits c layer key value small (refused err e over) = record {
    same_trace = record { layer = _; present = refl; traced = refl };
    same_runtime = refl;
    bounded = small;
    no_later = NoLater-refl c.expires;
  }
  Stored-Inherits c layer key value small (stored found fits same) = record {
    same_trace =
        subst (λ x. Traced trace x) (sym same)
          (record { layer = _; present = refl; traced = refl });
    same_runtime = ap (λ (x : Ctx). x.runtime) same;
    bounded = fits;
    no_later = subst (λ (x : Ctx). NoLater x.expires c.expires) (sym same) (NoLater-refl c.expires);
  }

  metadata-Inherits :
      (c : Ctx) (layer : RequestLayer) (key value : String)
      → IsBounded (traced_ctx c layer)
      → Inherits trace (traced_ctx c layer) (with_metadata (traced_ctx c layer) key value).0
  metadata-Inherits c layer key value small =
      Stored-Inherits c layer key value small (with_metadata-Stored (traced_ctx c layer) key value)

  execution-Inherits :
      (c : Ctx) (layer : RequestLayer) (now : ℤ) (id : String) (deadline : ℤ)
      (priority : PriorityClass)
      → IsBounded (traced_ctx c layer)
      → Inherits trace
          (traced_ctx c layer)
          (with_execution now (traced_ctx c layer) id deadline priority)
  unfolding with_execution get_trace_id
  execution-Inherits c layer now id deadline priority small = record {
    same_trace = record {
      layer = _;
      present = refl;
      traced = rw (str_eq_of_ne trace "" known) refl;
    };
    same_runtime = runtime_kept;
    bounded = small;
    no_later = execution-NoLater now (traced_ctx c layer) id deadline priority;
  }
    where
      runtime_kept :
          (with_execution now (traced_ctx c layer) id deadline priority).runtime ≡ c.runtime
      runtime_kept = ground arith

  -- A derivation whose request layer has the trace still.
  beside-Inherits :
      (c : Ctx) (layer : RequestLayer) (derived : Ctx) {kept : RequestLayer}
      → derived.request ≡ some kept
      → kept.trace_id ≡ trace
      → derived.runtime ≡ c.runtime
      → IsBounded derived
      → NoLater derived.expires c.expires
      → Inherits trace (traced_ctx c layer) derived
  beside-Inherits c layer derived {kept} present traced same small later = record {
    same_trace = record { layer = kept; present = present; traced = traced };
    same_runtime = same;
    bounded = small;
    no_later = later;
  }

  derive-Inherits :
      (c : Ctx) (layer : RequestLayer) (d : Derivation)
      → IsBounded (traced_ctx c layer)
      → Inherits trace (traced_ctx c layer) (derive (traced_ctx c layer) d)
  unfolding derive with_user with_session with_attempt with_cost_budget with_sensitive_key
      with_sensitive_variable with_child_execution get_trace_id
  derive-Inherits c layer (user id org claims) small =
      beside-Inherits c layer _ refl refl refl small (NoLater-refl c.expires)
  derive-Inherits c layer (session now id owner ss) small =
      beside-Inherits c layer _ refl refl refl small (NoLater-refl c.expires)
  derive-Inherits c layer (execution now id deadline priority) small =
      execution-Inherits c layer now id deadline priority small
  derive-Inherits c layer (child now id timeout) small =
      beside-Inherits c layer _ refl refl refl small
        (child-NoLater now (traced_ctx c layer) id timeout)
  derive-Inherits c layer (attempt n) small =
      beside-Inherits c layer _ refl refl refl small (NoLater-refl c.expires)
  derive-Inherits c layer (metadata key value) small = metadata-Inherits c layer key value small
  derive-Inherits c layer (budget b) small =
      beside-Inherits c layer _ refl refl refl small (NoLater-refl c.expires)
  derive-Inherits c layer (sensitive_key key) small =
      beside-Inherits c layer _ refl refl refl small (NoLater-refl c.expires)
  derive-Inherits c layer (sensitive_variable key printed) small =
      let m = metadata-Inherits c layer key printed small in
      beside-Inherits c layer _ m.same_trace.present m.same_trace.traced m.same_runtime m.bounded
        m.no_later

Traced-form :
    (trace : String) (ctx : Ctx) (t : Traced trace ctx) → traced_as trace ctx t.layer ≡ ctx
Traced-form trace ctx t =
    ap (λ (r : Option RequestLayer). record ctx { request = r })
      (ap (λ (s : String). some (record t.layer { trace_id = s })) (sym t.traced) ∙ sym t.present)

derive_one :
    (trace : String) (known : trace ≢ "") (ctx : Ctx) (d : Derivation)
    → Traced trace ctx
    → IsBounded ctx
    → Inherits trace ctx (derive ctx d)
derive_one trace known ctx d t small =
    subst (λ c. Inherits trace c (derive c d)) (Traced-form trace ctx t)
      (derive-Inherits trace known ctx t.layer d
        (subst (λ c. IsBounded c) (sym (Traced-form trace ctx t)) small))

-- Along any chain of derivations from a context with a request layer and a trace, whose metadata are
-- within the limit, the trace and the runtime stay, the metadata stay within the limit, and the
-- deadline never moves to a later time.
pub derive_all-Inherits :
    (trace : String) (ctx : Ctx) (ds : List Derivation)
    → trace ≢ ""
    → Traced trace ctx
    → IsBounded ctx
    → Inherits trace ctx (derive_all ctx ds)
unfolding derive_all
derive_all-Inherits trace ctx [] known t small = record {
  same_trace = record { layer = t.layer; present = t.present; traced = t.traced };
  same_runtime = refl;
  bounded = small;
  no_later = NoLater-refl ctx.expires;
}
derive_all-Inherits trace ctx (d ∷ ds) known t small =
    let first = derive_one trace known ctx d t small in
    let rest = derive_all-Inherits trace (derive ctx d) ds known first.same_trace first.bounded in
    record {
      same_trace = record {
        layer = rest.same_trace.layer;
        present = rest.same_trace.present;
        traced = rest.same_trace.traced;
      };
      same_runtime = rest.same_runtime ∙ first.same_runtime;
      bounded = rest.bounded;
      no_later =
          NoLater-trans (derive_all ctx (d ∷ ds)).expires (derive ctx d).expires ctx.expires
            rest.no_later first.no_later;
    }
