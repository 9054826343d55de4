-- ===== src/Base/Dict.antt =====
-- A Go `map[string]V` as an association list. A write to a key that is present replaces its value
-- in place, so a key stands once in a dictionary built by `insert`.
use chukrun.Base.{
  String, ◌≡◌, refl, Bool, true, false, List, [], ◌∷◌, Option, none, some, arith, if◌then◌else◌,
  str_eq, eq_iff, eq_refl, map, ◌≢◌, Bool-cases, inl, inr,
}

pub ne_of_str_eq : (s t : String) → str_eq s t ≡ false → s ≢ t
ne_of_str_eq s t h e = cc ((eq_iff s t).1 e)

pub str_eq_of_ne : (s t : String) → s ≢ t → str_eq s t ≡ false
str_eq_of_ne s t h = elim (Bool-cases (str_eq s t)) [
  | inl same ↦ absurd (h ((eq_iff s t).0 same))
  | inr differ ↦ differ
]

abbrev pub Dict {ℓ} : Type ℓ → Type ℓ
Dict V = List (String × V)

module _ {ℓ} {V : Type ℓ} where
  unfoldable pub lookup : String → Dict V → Option V
  lookup key [] = none
  lookup key ((name, value) ∷ rest) = if str_eq name key then some value else lookup key rest

  unfoldable pub insert : String → V → Dict V → Dict V
  insert key new [] = (key, new) ∷ []
  insert key new ((name, value) ∷ rest) =
      let changed = insert key new rest in
      if str_eq name key then (key, new) ∷ rest else (name, value) ∷ changed

  -- `delete(m, k)`: every entry of the key goes.
  unfoldable pub delete : String → Dict V → Dict V
  delete key [] = []
  delete key ((name, value) ∷ rest) =
      let kept = delete key rest in if str_eq name key then kept else (name, value) ∷ kept

  -- What a lookup finds after a write, and after a deletion.
  pub lookup-insert :
      (written asked : String) (new : V) (dict : Dict V)
      → lookup asked (insert written new dict)
        ≡ (if str_eq written asked then some new else lookup asked dict)
  unfolding lookup insert
  lookup-insert written asked new [] = refl
  lookup-insert written asked new ((name, value) ∷ rest) = ground (
    arith,
    lookup-insert written asked new rest,
    eq_iff name asked,
    eq_iff name written,
    eq_iff written asked,
  )

  pub lookup-insert_self :
      (key : String) (new : V) (dict : Dict V) → lookup key (insert key new dict) ≡ some new
  lookup-insert_self key new dict = simp (lookup-insert, eq_refl)

  pub lookup-delete :
      (deleted asked : String) (dict : Dict V)
      → lookup asked (delete deleted dict)
        ≡ (if str_eq deleted asked then none else lookup asked dict)
  unfolding lookup delete
  lookup-delete deleted asked [] = ground arith
  lookup-delete deleted asked ((name, value) ∷ rest) = ground (
    arith,
    lookup-delete deleted asked rest,
    eq_iff name asked,
    eq_iff name deleted,
    eq_iff deleted asked,
  )

-- `_, ok := m[k]`.
abbrev pub is_some {ℓ} : {A : Type ℓ} → Option A → Bool
is_some none = false
is_some (some _) = true

abbrev pub keys {ℓ} : {V : Type ℓ} → Dict V → List String
keys = map (λ e. e.0)
