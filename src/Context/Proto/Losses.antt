-- ===== src/Context/Proto/Losses.antt =====
-- What a context loses when it is read from a message (core/context/serialization.go).
use chukrun.Base.{◌≡◌, refl, ◌∙◌, ◌≢◌, String, true, [], ◌∷◌, Option, none, some, arith}
use chukrun.Base.Int.{ℤ, pos, ◌-ℤ◌, ◌*ℤ◌, ltb_ℤ, wrap64}
use chukrun.Base.Dict.{Dict, str_eq_of_ne}
use chukrun.Context.Layers.{FloatOps, Ctx, with_user}
use chukrun.Context.Derive.{
  with_metadata, with_execution, with_cost_budget, with_session, new_root_context,
}
use chukrun.Context.Proto.{
  ContextProto, CostBudgetProto, Shared, from_proto, identify, restore_execution, restore_ids,
  restore_budget, restore_metadata, parse_deadline, nanos,
}

-- The parts of a context that the metadata and the budget leave alone.
with_metadata_keeps :
    (ctx : Ctx) (key value : String)
    → ((with_metadata ctx key value).0.expires ≡ ctx.expires)
      × ((with_metadata ctx key value).0.user ≡ ctx.user)
unfolding with_metadata
with_metadata_keeps ctx key value = ground arith

metadata_keeps :
    (m : Dict String) (ctx : Ctx)
    → ((restore_metadata m ctx).expires ≡ ctx.expires) × ((restore_metadata m ctx).user ≡ ctx.user)
unfolding restore_metadata
metadata_keeps [] ctx = (refl, refl)
metadata_keeps ((key, value) ∷ rest) ctx =
    let (e, u) = with_metadata_keeps ctx key value in
    let (es, us) = metadata_keeps rest (with_metadata ctx key value).0 in (es ∙ e, us ∙ u)

budget_keeps :
    (f : FloatOps) (b : Option CostBudgetProto) (ctx : Ctx) (w : Shared)
    → ((restore_budget f b ctx w).1.expires ≡ ctx.expires)
      × ((restore_budget f b ctx w).1.user ≡ ctx.user)
unfolding restore_budget with_cost_budget
budget_keeps f none ctx w = (refl, refl)
budget_keeps f (some b) ctx w = (refl, refl)

execution_keeps :
    (now : ℤ) (proto : ContextProto) (ctx : Ctx)
    → ((restore_execution now proto ctx).user ≡ ctx.user)
      × (parse_deadline now proto.deadline_unix_ms ≡ pos 0
          → (restore_execution now proto ctx).expires ≡ ctx.expires)
unfolding restore_execution restore_ids with_execution
execution_keeps now proto ctx = (ground arith, λ e. ground (arith, e))

identify_open :
    (now : ℤ) (instance_id version : String) (proto : ContextProto) (w : Shared)
    → (identify now proto (new_root_context instance_id version) w).1.expires ≡ none
unfolding identify new_root_context with_session with_user
identify_open now instance_id version proto w = ground arith

identify_session :
    (now : ℤ) (instance_id version : String) (proto : ContextProto) (w : Shared)
    → proto.session_id ≢ ""
    → (identify now proto (new_root_context instance_id version) w).1.user ≡ none
unfolding identify new_root_context with_session
identify_session now instance_id version proto w named =
    rw (identify, str_eq_of_ne proto.session_id "" named) refl

-- The context before the metadata are restored.
abbrev rebuilt : FloatOps → ℤ → String → String → ContextProto → Shared → Ctx
rebuilt f now instance_id version proto w =
    let (w1, c1) = identify now proto (new_root_context instance_id version) w in
    (restore_budget f proto.cost_budget (restore_execution now proto c1) w1).1

past :
    (now deadline : ℤ)
    → ltb_ℤ (wrap64 (deadline *ℤ pos nanos) -ℤ now) (pos 0) ≡ true
    → parse_deadline now deadline ≡ pos 0
unfolding parse_deadline
past now deadline h = ground (arith, h)

-- A deadline that has passed when the message is read is no deadline any more: the context that is
-- read has none, and its work may take forever.
pub past_deadline_lost :
    (f : FloatOps) (now : ℤ) (instance_id version : String) (proto : ContextProto) (w : Shared)
    → ltb_ℤ (wrap64 (proto.deadline_unix_ms *ℤ pos nanos) -ℤ now) (pos 0) ≡ true
    → (from_proto f now instance_id version proto w).1.expires ≡ none
unfolding from_proto
past_deadline_lost f now instance_id version proto w h =
    let (w1, c1) = identify now proto (new_root_context instance_id version) w in
    (metadata_keeps proto.metadata (rebuilt f now instance_id version proto w)).0
    ∙ (budget_keeps f proto.cost_budget (restore_execution now proto c1) w1).0
    ∙ (execution_keeps now proto c1).1 (past now proto.deadline_unix_ms h)
    ∙ identify_open now instance_id version proto w

-- A context that is read from a message with a session has no user layer, whatever user the message
-- names.
pub session_loses_user :
    (f : FloatOps) (now : ℤ) (instance_id version : String) (proto : ContextProto) (w : Shared)
    → proto.session_id ≢ ""
    → (from_proto f now instance_id version proto w).1.user ≡ none
unfolding from_proto
session_loses_user f now instance_id version proto w named =
    let (w1, c1) = identify now proto (new_root_context instance_id version) w in
    (metadata_keeps proto.metadata (rebuilt f now instance_id version proto w)).1
    ∙ (budget_keeps f proto.cost_budget (restore_execution now proto c1) w1).1
    ∙ (execution_keeps now proto c1).0
    ∙ identify_session now instance_id version proto w named
