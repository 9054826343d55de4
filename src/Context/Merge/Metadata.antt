-- ===== src/Context/Merge/Metadata.antt =====
-- The metadata of two requests that are merged (core/context/context.go).
use chukrun.Base.{
  ◌+◌, ◌≤◌, ◌≡◌, refl, ap, subst, ◌⊎◌, inl, inr, String, true, [], ◌∷◌, Option, none, some, arith,
  str_eq, eq_iff, Bool-cases, Option-cases,
}
use chukrun.Base.Dict.{Dict, lookup, insert, lookup-insert}
use chukrun.Context.Layers.{Ctx, RequestLayer, layer_metadata, get_metadata}
use chukrun.Context.Derive.{metadata_size}
use chukrun.Context.Derive.Metadata.{metadata_size-insert}
use chukrun.Context.Merge.{
  ConflictStrategy, overlay_wins, base_wins, error_on_conflict, merge_metadata, merge_request,
  merge_layers, take_request,
}
use chukrun.Errors.{is_nil}

-- What stands in the merged context where both sides may have something.
abbrev pub chosen {ℓ} : {A : Type ℓ} → ConflictStrategy → Option A → Option A → Option A
chosen rule base none = base
chosen rule none (some o) = some o
chosen overlay_wins (some b) (some o) = some o
chosen base_wins (some b) (some o) = some b
chosen error_on_conflict (some b) (some o) = none

-- Each key stands once.
abbrev pub Distinct : Dict String → Type 0
Distinct [] = Unit {0}
Distinct ((key, _) ∷ rest) = (lookup key rest ≡ none) × Distinct rest

-- Merged metadata are those of the two sides, key by key: where both have an entry, the strategy
-- chooses; and under `ErrorOnConflict` a merge without an error means that no key had two.
pub lookup-merge_metadata :
    (rule : ConflictStrategy) (merged overlay : Dict String) (asked : String)
    → Distinct overlay
    → is_nil (merge_metadata rule merged overlay).1 ≡ true
    → lookup asked (merge_metadata rule merged overlay).0
      ≡ chosen rule (lookup asked merged) (lookup asked overlay)
unfolding merge_metadata lookup
lookup-merge_metadata rule merged [] asked once ok = refl
lookup-merge_metadata overlay_wins merged ((key, value) ∷ rest) asked (new, once) ok = ground (
  arith,
  eq_iff key asked,
  lookup-insert key asked value merged,
  lookup-merge_metadata overlay_wins (insert key value merged) rest asked once,
)
lookup-merge_metadata base_wins merged ((key, value) ∷ rest) asked (new, once) ok = ground (
  arith,
  eq_iff key asked,
  lookup-insert key asked value merged,
  lookup-merge_metadata base_wins (insert key value merged) rest asked once,
  lookup-merge_metadata base_wins merged rest asked once,
)
lookup-merge_metadata error_on_conflict merged ((key, value) ∷ rest) asked (new, once) ok = ground (
  arith,
  eq_iff key asked,
  lookup-insert key asked value merged,
  lookup-merge_metadata error_on_conflict (insert key value merged) rest asked once,
)

layers_metadata :
    (rule : ConflictStrategy) (b o : RequestLayer) (merged : Ctx) (asked : String)
    → Distinct (layer_metadata (some o))
    → is_nil (merge_layers rule b o merged).1 ≡ true
    → lookup asked (layer_metadata (merge_layers rule b o merged).0.request)
      ≡ chosen rule
          (lookup asked (layer_metadata (some b)))
          (lookup asked (layer_metadata (some o)))
unfolding merge_layers take_request
layers_metadata rule b o merged asked once ok = ground (
  arith,
  lookup-merge_metadata rule (layer_metadata (some b)) (layer_metadata (some o)) asked once,
)

pub request_metadata :
    (rule : ConflictStrategy) (base overlay merged : Ctx) (b o : Option RequestLayer)
    (asked : String)
    → merged.request ≡ b
    → Distinct (layer_metadata o)
    → let based : Ctx = record base { request = b } in
      let overlaid : Ctx = record overlay { request = o } in
      is_nil (merge_request rule based overlaid merged).1 ≡ true
      → get_metadata (merge_request rule based overlaid merged).0 asked
        ≡ chosen rule (get_metadata based asked) (get_metadata overlaid asked)
unfolding merge_request get_metadata take_request lookup
request_metadata rule base overlay merged b none asked same once ok =
    ap (λ layer. lookup asked (layer_metadata layer)) same
request_metadata rule base overlay merged none (some o) asked same once ok = ground arith
request_metadata rule base overlay merged (some b) (some o) asked same once ok =
    layers_metadata rule b o merged asked once ok

metadata_apart :
    (merged overlay : Dict String) (asked : String)
    → is_nil (merge_metadata error_on_conflict merged overlay).1 ≡ true
    → (lookup asked merged ≡ none) ⊎ (lookup asked overlay ≡ none)
unfolding merge_metadata lookup
metadata_apart merged [] asked ok = inr refl
metadata_apart merged ((key, value) ∷ rest) asked ok = elim (Option-cases (lookup key merged)) [
  | inr (old, there) ↦ ground (arith, ok, there)
  | inl absent ↦ elim (Bool-cases (str_eq key asked)) [
    | inl same ↦ inl (subst (λ k. lookup k merged ≡ none) ((eq_iff key asked).0 same) absent)
    | inr other ↦
        elim (metadata_apart (insert key value merged) rest asked (ground (arith, ok, absent))) [
          | inl free ↦ inl (ground (arith, free, other, lookup-insert key asked value merged))
          | inr free ↦ inr (rw other free)
        ]
  ]
]

layers_apart :
    (b o : RequestLayer) (merged : Ctx) (asked : String)
    → is_nil (merge_layers error_on_conflict b o merged).1 ≡ true
    → (lookup asked (layer_metadata (some b)) ≡ none)
      ⊎ (lookup asked (layer_metadata (some o)) ≡ none)
unfolding merge_layers
layers_apart b o merged asked ok =
    metadata_apart (layer_metadata (some b)) (layer_metadata (some o)) asked (ground (arith, ok))

pub request_apart :
    (rule : ConflictStrategy) (base overlay merged : Ctx) (b o : Option RequestLayer)
    (asked : String)
    → rule ≡ error_on_conflict
    → let based : Ctx = record base { request = b } in
      let overlaid : Ctx = record overlay { request = o } in
      is_nil (merge_request rule based overlaid merged).1 ≡ true
      → (get_metadata based asked ≡ none) ⊎ (get_metadata overlaid asked ≡ none)
unfolding merge_request get_metadata lookup
request_apart rule base overlay merged b none asked strict ok = inr refl
request_apart rule base overlay merged none (some o) asked strict ok = inl refl
request_apart rule base overlay merged (some b) (some o) asked strict ok =
    layers_apart b o merged asked
      (subst (λ r. is_nil (merge_layers r b o merged).1 ≡ true) strict ok)

-- A merge adds no more metadata than both sides have, but the limit of `WithMetadata` is not asked:
-- the merged metadata may be as long as those of both sides together.
pub merge_metadata_size :
    (rule : ConflictStrategy) (merged overlay : Dict String)
    → metadata_size (merge_metadata rule merged overlay).0
      ≤ metadata_size merged + metadata_size overlay
unfolding merge_metadata metadata_size
merge_metadata_size rule merged [] = omega arith
merge_metadata_size overlay_wins merged ((key, value) ∷ rest) = ground (
  arith,
  metadata_size-insert key value merged,
  merge_metadata_size overlay_wins (insert key value merged) rest,
)
merge_metadata_size base_wins merged ((key, value) ∷ rest) = ground (
  arith,
  metadata_size-insert key value merged,
  merge_metadata_size base_wins (insert key value merged) rest,
  merge_metadata_size base_wins merged rest,
)
merge_metadata_size error_on_conflict merged ((key, value) ∷ rest) = ground (
  arith,
  metadata_size-insert key value merged,
  merge_metadata_size error_on_conflict (insert key value merged) rest,
)
