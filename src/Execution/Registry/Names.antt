-- ===== src/Execution/Registry/Names.antt =====
-- Names in the registry: a provider is found again under its name, and a name is given once.
use chukrun.Base.{
  ◌≡◌, refl, ◌≢◌, inl, inr, String, false, [], ◌∷◌, none, some, Bool-cases, Option-cases, str_eq,
  eq_iff, sym, ◌∙◌,
}
use chukrun.Base.Dict.{
  lookup, insert, lookup-insert, lookup-insert_self, ne_of_str_eq, str_eq_of_ne,
}
use chukrun.Errors.{GoError, nil, validation, platform_error}
use chukrun.Execution.Registry.{Provider, Registry, register, resolve}

module _ {P : Type 0} where
  -- Every provider stands under its own name, which is not empty.
  abbrev pub IsKeyed : Registry P → Type 0
  IsKeyed r =
      (name : String) (p : Provider P) → lookup name r ≡ some p → (p.name ≡ name) × (name ≢ "")

  -- What `Register` of a provider does, in each case.
  pub data Registers (p : Provider P) (r : Registry P) : Registry P × GoError → Type 0 where
    nameless : (m : String) → p.name ≡ "" → Registers p r (r, platform_error validation m false nil)
    duplicate :
        (m : String) (old : Provider P)
        → lookup p.name r ≡ some old
        → Registers p r (r, platform_error validation m false nil)
    added : p.name ≢ "" → lookup p.name r ≡ none → Registers p r (insert p.name p r, nil)

  -- `Register` of a provider refuses an empty name and a name that is taken, with a validation error
  -- and the registry unchanged, and otherwise puts the provider under its name.
  pub register-Registers : (p : Provider P) (r : Registry P) → Registers p r (register (some p) r)
  unfolding register
  register-Registers p r = elim (Bool-cases (str_eq p.name "")) [
    | inl empty ↦ rw empty (nameless _ ((eq_iff p.name "").0 empty))
    | inr named ↦ elim (Option-cases (lookup p.name r)) [
      | inl free ↦ rw (named, free) (added (ne_of_str_eq p.name "" named) free)
      | inr (old, taken) ↦ rw (named, taken) (duplicate _ old taken)
    ]
  ]

  resolve-lookup : (name : String) (r : Registry P) → name ≢ "" → (resolve name r).0 ≡ lookup name r
  unfolding resolve
  resolve-lookup name [] named = unfold lookup in refl
  resolve-lookup name ((j, p) ∷ r) named =
      rw (str_eq_of_ne name "" named) (elim (Option-cases (lookup name ((j, p) ∷ r))) [
        | inl missing ↦ rw missing
        | inr (found, e) ↦ rw e
      ])

  Registers-IsKeyed :
      (p : Provider P) (r : Registry P) {s : Registry P × GoError}
      → IsKeyed r
      → Registers p r s
      → IsKeyed s.0
  Registers-IsKeyed p r keyed (nameless _ _) = keyed
  Registers-IsKeyed p r keyed (duplicate _ _ _) = keyed
  Registers-IsKeyed p r keyed (added named free) = λ name q found.
      elim (Bool-cases (str_eq p.name name)) [
        | inl same ↦
            let e : p.name ≡ name = (eq_iff p.name name).0 same in
            let here : some p ≡ some q = sym (lookup-insert p.name name p r ∙ rw same) ∙ found in
            (cc, λ z. named (e ∙ z))
        | inr other ↦ keyed name q (sym (lookup-insert p.name name p r ∙ rw other) ∙ found)
      ]

  -- Registering keeps the registry keyed by the providers' own names, no name empty.
  pub register-IsKeyed :
      (p : Provider P) (r : Registry P) → IsKeyed r → IsKeyed (register (some p) r).0
  register-IsKeyed p r keyed = Registers-IsKeyed p r keyed (register-Registers p r)

  Registers-resolve :
      (p : Provider P) (r : Registry P) {s : Registry P × GoError}
      → s.1 ≡ nil
      → Registers p r s
      → ((resolve p.name s.0).0 ≡ some p)
        × ((name : String) → name ≢ "" → name ≢ p.name → (resolve name s.0).0 ≡ (resolve name r).0)
  Registers-resolve p r ok (nameless _ _) = cc
  Registers-resolve p r ok (duplicate _ _ _) = cc
  Registers-resolve p r ok (added named free) = (
    resolve-lookup p.name (insert p.name p r) named ∙ lookup-insert_self p.name p r,
    λ name real other.
        resolve-lookup name (insert p.name p r) real
        ∙ lookup-insert p.name name p r
        ∙ rw (str_eq_of_ne p.name name (λ e. other (sym e))) (sym (resolve-lookup name r real)),
  )

  -- A provider that is registered without an error is what its name resolves to, and no other name
  -- resolves differently than before.
  pub register_then_resolve :
      (p : Provider P) (r : Registry P)
      → (register (some p) r).1 ≡ nil
      → let r' = (register (some p) r).0 in
        ((resolve p.name r').0 ≡ some p)
        × ((name : String) → name ≢ "" → name ≢ p.name → (resolve name r').0 ≡ (resolve name r).0)
  register_then_resolve p r ok = Registers-resolve p r ok (register-Registers p r)
