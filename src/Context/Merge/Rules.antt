-- ===== src/Context/Merge/Rules.antt =====
-- What `Merge` makes of the layers of two contexts.
use chukrun.Base.{
  ◌≡◌, refl, ◌∙◌, ap, sym, subst, ◌≢◌, ◌⊎◌, inl, inr, String, true, false, none, some, arith,
}
use chukrun.Context.Layers.{Ctx, get_session, layer_metadata, get_metadata}
use chukrun.Context.Session.{SessionStore}
use chukrun.Context.Merge.{
  ConflictStrategy, overlay_wins, base_wins, error_on_conflict, merge, is_cross_runtime,
  merge_session, merge_user, merge_request, merge_layers, take_user, take_session, take_request,
}
use chukrun.Context.Merge.Fields.{first_of, RequestMerged, request-RequestMerged, session_first}
use chukrun.Context.Merge.Picked.{IsStoredAt, VarsMerged}
use chukrun.Context.Merge.Vars.{session-VarsMerged}
use chukrun.Errors.{GoError, is_nil}
use chukrun.Context.Merge.Metadata.{chosen, Distinct, request_metadata, request_apart}

-- The layers of the three steps of `Merge`.
abbrev after_session : ConflictStrategy → Ctx → Ctx → SessionStore → Ctx
after_session rule base overlay ss = (merge_session rule base overlay base ss).1

abbrev after_user : ConflictStrategy → Ctx → Ctx → SessionStore → Ctx
after_user rule base overlay ss =
    (merge_user rule base overlay (after_session rule base overlay ss)).0

abbrev after_request : ConflictStrategy → Ctx → Ctx → SessionStore → Ctx × GoError
after_request rule base overlay ss =
    merge_request rule base overlay (after_user rule base overlay ss)

-- A merge that answers a context went through all three steps without an error.
merge_steps :
    (rule : ConflictStrategy) (base overlay : Ctx) (ss : SessionStore) (c : Ctx)
    → (merge rule base overlay ss).1 ≡ some c
    → (is_cross_runtime base.runtime overlay.runtime ≡ false)
      × (is_nil (merge_user rule base overlay (after_session rule base overlay ss)).1 ≡ true)
      × (is_nil (after_request rule base overlay ss).1 ≡ true)
      × (c ≡ (after_request rule base overlay ss).0)
      × (is_nil (merge_session rule base overlay base ss).2 ≡ true)
      × ((merge rule base overlay ss).0 ≡ (merge_session rule base overlay base ss).0)
unfolding merge
merge_steps rule base overlay ss c h = ground arith

-- What a step keeps.
record Keeps (before after : Ctx) : Type 0 where
  runtime : after.runtime ≡ before.runtime
  expires : after.expires ≡ before.expires
  request : after.request ≡ before.request

session-Keeps :
    (rule : ConflictStrategy) (base overlay merged : Ctx) (ss : SessionStore)
    → Keeps merged (merge_session rule base overlay merged ss).1
unfolding merge_session take_session
session-Keeps rule base overlay merged ss = record {
  runtime = ground arith;
  expires = ground arith;
  request = ground arith;
}

user-Keeps :
    (rule : ConflictStrategy) (base overlay merged : Ctx)
    → Keeps merged (merge_user rule base overlay merged).0
unfolding merge_user take_user
user-Keeps rule base overlay merged = record {
  runtime = ground arith;
  expires = ground arith;
  request = ground arith;
}

-- The session is set in the first step only.
user_keeps_session :
    (rule : ConflictStrategy) (base overlay merged : Ctx)
    → (merge_user rule base overlay merged).0.session ≡ merged.session
unfolding merge_user take_user
user_keeps_session rule base overlay merged = ground arith

request_keeps_session :
    (rule : ConflictStrategy) (base overlay merged : Ctx)
    → (merge_request rule base overlay merged).0.session ≡ merged.session
unfolding merge_request merge_layers take_request
request_keeps_session rule base overlay merged = ground arith

session_keeps_user :
    (rule : ConflictStrategy) (base overlay merged : Ctx) (ss : SessionStore)
    → (merge_session rule base overlay merged ss).1.user ≡ merged.user
unfolding merge_session take_session
session_keeps_user rule base overlay merged ss = ground arith

user_chosen :
    (rule : ConflictStrategy) (base overlay merged : Ctx)
    → merged.user ≡ base.user
    → is_nil (merge_user rule base overlay merged).1 ≡ true
    → (merge_user rule base overlay merged).0.user ≡ chosen rule base.user overlay.user
unfolding merge_user take_user
user_chosen rule base overlay merged same ok = ground arith

request_keeps :
    (rule : ConflictStrategy) (base overlay merged : Ctx)
    → let c = (merge_request rule base overlay merged).0 in
      (c.runtime ≡ merged.runtime) × (c.expires ≡ merged.expires) × (c.user ≡ merged.user)
unfolding merge_request merge_layers take_request
request_keeps rule base overlay merged = ground arith

-- What a merge that succeeds answers.
pub record Merged (rule : ConflictStrategy) (base overlay : Ctx) (ss ss' : SessionStore) (c : Ctx)
    : Type 0 where
  pub one_runtime : is_cross_runtime base.runtime overlay.runtime ≡ false
  pub same_runtime : c.runtime ≡ base.runtime
  pub same_deadline : c.expires ≡ base.expires
  pub user : c.user ≡ chosen rule base.user overlay.user
  pub session : c.session ≡ first_of base.session overlay.session
  pub variables : VarsMerged rule (get_session base) (get_session overlay) ss ss'
  pub request : RequestMerged rule base.request overlay.request c.request
  pub metadata :
      (key : String)
      → get_metadata c key ≡ chosen rule (get_metadata base key) (get_metadata overlay key)
  pub no_conflict :
      (rule ≢ error_on_conflict)
      ⊎ ((key : String) → (get_metadata base key ≡ none) ⊎ (get_metadata overlay key ≡ none))

when_strict :
    {P : Type 0} (rule : ConflictStrategy)
    → (rule ≡ error_on_conflict → P)
    → (rule ≢ error_on_conflict) ⊎ P
when_strict overlay_wins h = inl (λ e. cc)
when_strict base_wins h = inl (λ e. cc)
when_strict error_on_conflict h = inr (h refl)

-- A merge that answers a context, where the variables of the base's session, if it has one, are in
-- the store, merged two contexts of one runtime, or of which one has no runtime. The runtime and
-- what `ctx.Deadline()` answers are the base's, and so is the session, or else the overlay's; if
-- both have one, each variable of the base's is then the one that there was, or the one that the
-- strategy chooses where both had one, and otherwise no variable changes. The user and each entry
-- of the metadata are the one that there is, or the strategy's choice. The request is that of the
-- only side that has one; of two, `OverlayWins` takes each field of the overlay that is not empty,
-- the deadline of the request among them, and all others from the base, `BaseWins` and
-- `ErrorOnConflict` take the base's fields. Under `ErrorOnConflict` no variable and no key of the
-- metadata is on both sides, and the overlay's request names no other execution.
pub merge-Merged :
    (rule : ConflictStrategy) (base overlay : Ctx) (ss : SessionStore) (c : Ctx)
    → Distinct (layer_metadata overlay.request)
    → IsStoredAt (get_session base) ss
    → (merge rule base overlay ss).1 ≡ some c
    → Merged rule base overlay ss (merge rule base overlay ss).0 c
merge-Merged rule base overlay ss c once stored h =
    let (one_runtime, user_ok, request_ok, same, session_ok, store) =
      merge_steps rule base overlay ss c h in
    let c1 = after_session rule base overlay ss in
    let c2 = after_user rule base overlay ss in
    let k1 = session-Keeps rule base overlay base ss in
    let k2 = user-Keeps rule base overlay c1 in
    let (runtime, expires, user) = request_keeps rule base overlay c2 in
    record {
      one_runtime = one_runtime;
      same_runtime = ap (λ (x : Ctx). x.runtime) same ∙ runtime ∙ k2.runtime ∙ k1.runtime;
      same_deadline = ap (λ (x : Ctx). x.expires) same ∙ expires ∙ k2.expires ∙ k1.expires;
      user =
          ap (λ (x : Ctx). x.user) same
          ∙ user
          ∙ user_chosen rule base overlay c1 (session_keeps_user rule base overlay base ss) user_ok;
      session =
          ap (λ (x : Ctx). x.session) same
          ∙ request_keeps_session rule base overlay c2
          ∙ user_keeps_session rule base overlay c1
          ∙ session_first rule base overlay ss;
      variables = subst (VarsMerged rule (get_session base) (get_session overlay) ss) (sym store) (
          session-VarsMerged rule base overlay base base.session overlay.session ss stored
            session_ok);
      request =
          subst (λ (x : Ctx). RequestMerged rule base.request overlay.request x.request) (sym same)
            (request-RequestMerged rule base overlay c2 base.request overlay.request
              (k2.request ∙ k1.request) request_ok);
      metadata = λ key.
          ap (λ x. get_metadata x key) same
          ∙ request_metadata rule base overlay c2 base.request overlay.request key
              (k2.request ∙ k1.request) once request_ok;
      no_conflict = when_strict rule (λ strict key.
          request_apart rule base overlay c2 base.request overlay.request key strict request_ok);
    }
