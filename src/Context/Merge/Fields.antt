-- ===== src/Context/Merge/Fields.antt =====
-- What `mergeSession` and `mergeRequest` make of the layers of a session and of a request
-- (core/context/context.go). Which side a field of the request is taken from is said here without
-- the code's tests.
use chukrun.Base.{
  ◌≡◌, refl, ◌≢◌, ◌⊎◌, inl, inr, String, true, Option, none, some, arith, str_eq, eq_iff,
  Bool-cases, Option-cases, if◌then◌else◌,
}
use chukrun.Base.Dict.{Dict}
use chukrun.Base.Int.{ℤ, pos, negsuc, ◌≤ℤ◌, ltb_ℤ, eqb_ℤ}
use chukrun.Context.Layers.{Ctx, CostBudget, RequestLayer, layer_metadata}
use chukrun.Context.Session.{SessionStore}
use chukrun.Context.Merge.{
  ConflictStrategy, overlay_wins, base_wins, error_on_conflict, or_text, or_budget,
  apply_overlay_fields, merge_request_fields, merge_metadata, merge_session, merge_request,
  merge_layers, take_session, take_request,
}
use chukrun.Errors.{is_nil}

-- The base's, if it has one, and else the overlay's.
abbrev pub first_of {ℓ} : {A : Type ℓ} → Option A → Option A → Option A
first_of none o = o
first_of (some b) o = some b

first_of-none {ℓ} : {A : Type ℓ} → (b : Option A) → b ≡ first_of b none
first_of-none none = refl
first_of-none (some b) = refl

-- A field is the overlay's, unless that is empty.
abbrev pub TakenText : String → String → String → Type 0
TakenText b o r = ((o ≡ "") × (r ≡ b)) ⊎ ((o ≢ "") × (r ≡ o))

pub record Overlaid (b o r : RequestLayer) : Type 0 where
  pub execution_id : TakenText b.execution_id o.execution_id r.execution_id
  pub parent : TakenText b.parent_execution_id o.parent_execution_id r.parent_execution_id
  pub trace : TakenText b.trace_id o.trace_id r.trace_id
  pub deadline :
      ((o.deadline ≡ pos 0) × (r.deadline ≡ b.deadline))
      ⊎ ((o.deadline ≢ pos 0) × (r.deadline ≡ o.deadline))
  pub priority : TakenText b.priority o.priority r.priority
  pub budget : r.cost_budget ≡ first_of o.cost_budget b.cost_budget
  pub attempt :
      ((o.attempt ≤ℤ pos 0) × (r.attempt ≡ b.attempt))
      ⊎ (¬ (o.attempt ≤ℤ pos 0) × (r.attempt ≡ o.attempt))

-- Every field is the base's.
pub record SameFields (b r : RequestLayer) : Type 0 where
  pub execution_id : r.execution_id ≡ b.execution_id
  pub parent : r.parent_execution_id ≡ b.parent_execution_id
  pub trace : r.trace_id ≡ b.trace_id
  pub deadline : r.deadline ≡ b.deadline
  pub priority : r.priority ≡ b.priority
  pub budget : r.cost_budget ≡ b.cost_budget
  pub attempt : r.attempt ≡ b.attempt

abbrev pub FieldsMerged : ConflictStrategy → RequestLayer → RequestLayer → RequestLayer → Type 0
FieldsMerged overlay_wins b o r = Overlaid b o r
FieldsMerged base_wins b o r = SameFields b r
FieldsMerged error_on_conflict b o r =
    SameFields b r × ((o.execution_id ≡ "") ⊎ (o.execution_id ≡ b.execution_id))

-- The request layer, by which sides have one.
abbrev pub RequestMerged :
    ConflictStrategy → Option RequestLayer → Option RequestLayer → Option RequestLayer → Type 0
RequestMerged rule b none r = r ≡ b
RequestMerged rule none (some o) r = r ≡ some o
RequestMerged rule (some b) (some o) r =
    (layer : RequestLayer) × (r ≡ some layer) × FieldsMerged rule b o layer

or_text-TakenText : (b o : String) → TakenText b o (or_text b o)
or_text-TakenText b o = ground (arith, eq_iff o "")

taken_deadline :
    (b o : ℤ)
    → let r = if eqb_ℤ o (pos 0) then b else o in ((o ≡ pos 0) × (r ≡ b)) ⊎ ((o ≢ pos 0) × (r ≡ o))
taken_deadline b (pos n) = ground arith
taken_deadline b (negsuc n) = ground arith

taken_attempt :
    (b o : ℤ)
    → let r = if ltb_ℤ (pos 0) o then o else b in
      ((o ≤ℤ pos 0) × (r ≡ b)) ⊎ (¬ (o ≤ℤ pos 0) × (r ≡ o))
taken_attempt b o = ground arith

taken_budget : (b o : Option CostBudget) → or_budget b o ≡ first_of o b
taken_budget b none = refl
taken_budget b (some o) = refl

apply-Overlaid : (b o : RequestLayer) → Overlaid b o (apply_overlay_fields b o)
unfolding apply_overlay_fields
apply-Overlaid b o = record {
  execution_id = or_text-TakenText b.execution_id o.execution_id;
  parent = or_text-TakenText b.parent_execution_id o.parent_execution_id;
  trace = or_text-TakenText b.trace_id o.trace_id;
  deadline = taken_deadline b.deadline o.deadline;
  priority = or_text-TakenText b.priority o.priority;
  budget = taken_budget b.cost_budget o.cost_budget;
  attempt = taken_attempt b.attempt o.attempt;
}

SameFields-with :
    (b : RequestLayer) (metadata : Option (Dict String))
    → SameFields b (record b { metadata = metadata })
SameFields-with b metadata = record {
  execution_id = refl;
  parent = refl;
  trace = refl;
  deadline = refl;
  priority = refl;
  budget = refl;
  attempt = refl;
}

-- The metadata of the layer do not matter to its fields.
fields-FieldsMerged :
    (rule : ConflictStrategy) (b o : RequestLayer) (metadata : Option (Dict String))
    → is_nil (merge_request_fields rule b o).1 ≡ true
    → FieldsMerged rule b o (record (merge_request_fields rule b o).0 { metadata = metadata })
unfolding merge_request_fields
fields-FieldsMerged overlay_wins b o metadata ok =
    let a = apply-Overlaid b o in
    record {
      execution_id = a.execution_id;
      parent = a.parent;
      trace = a.trace;
      deadline = a.deadline;
      priority = a.priority;
      budget = a.budget;
      attempt = a.attempt;
    }
fields-FieldsMerged base_wins b o metadata ok = SameFields-with b metadata
fields-FieldsMerged error_on_conflict b o metadata ok =
    elim (Bool-cases (str_eq o.execution_id "")) [
      | inl unnamed ↦
          rw unnamed (SameFields-with b metadata, inl ((eq_iff o.execution_id "").0 unnamed))
      | inr named ↦ elim (Bool-cases (str_eq o.execution_id b.execution_id)) [
        | inl same ↦
            rw (named, same)
              (SameFields-with b metadata, inr ((eq_iff o.execution_id b.execution_id).0 same))
        | inr other ↦ ground (arith, ok, named, other)
      ]
    ]

layers-RequestMerged :
    (rule : ConflictStrategy) (b o : RequestLayer) (merged : Ctx)
    → is_nil (merge_layers rule b o merged).1 ≡ true
    → RequestMerged rule (some b) (some o) (merge_layers rule b o merged).0.request
unfolding merge_layers take_request
layers-RequestMerged rule b o merged ok =
    let (fields, conflict) = merge_request_fields rule b o in
    let (metadata, clash) =
      merge_metadata rule (layer_metadata (some b)) (layer_metadata (some o)) in
    elim (Bool-cases (is_nil conflict)) [
      | inr bad ↦ ground (arith, ok, bad)
      | inl fine ↦ elim (Bool-cases (is_nil clash)) [
        | inr bad ↦ ground (arith, ok, fine, bad)
        | inl clear ↦ rw (fine, clear) (_, refl, fields-FieldsMerged rule b o (some metadata) fine)
      ]
    ]

pub request-RequestMerged :
    (rule : ConflictStrategy) (base overlay merged : Ctx) (b o : Option RequestLayer)
    → merged.request ≡ b
    → let based : Ctx = record base { request = b } in
      let overlaid : Ctx = record overlay { request = o } in
      is_nil (merge_request rule based overlaid merged).1 ≡ true
      → RequestMerged rule b o (merge_request rule based overlaid merged).0.request
unfolding merge_request take_request
request-RequestMerged rule base overlay merged b none same ok = same
request-RequestMerged rule base overlay merged none (some o) same ok = refl
request-RequestMerged rule base overlay merged (some b) (some o) same ok =
    layers-RequestMerged rule b o merged ok

pub session_first :
    (rule : ConflictStrategy) (base overlay : Ctx) (ss : SessionStore)
    → (merge_session rule base overlay base ss).1.session ≡ first_of base.session overlay.session
unfolding merge_session take_session
session_first rule base overlay ss = elim (Option-cases overlay.session) [
  | inl none_over ↦ rw none_over (first_of-none base.session)
  | inr (sl, over) ↦ elim (Option-cases base.session) [
    | inl none_base ↦ rw (over, none_base) refl
    | inr (bl, based) ↦ rw (over, based) refl
  ]
]
