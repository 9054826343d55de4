-- ===== src/Execution/Registry.antt =====
-- core/execution/registry.go: the providers by name. A provider is the interface of provider.go:
-- its name, and its calls, which stand outside the repository and enter where the engine makes
-- them. Go ranges over a map in no fixed order; the dictionary's order stands for the order of the
-- one call, and nothing below depends on it but which provider an empty name gets.
pub mod Names
use chukrun.Base.{
  ◌≡◌, refl, ◌≢◌, ◌⊎◌, inl, inr, String, Bool, true, false, List, [], ◌∷◌, Option, none, some,
  arith, Bool-cases, Option-cases, str_eq, eq_iff, eq_refl, sym, ◌∙◌, if◌then◌else◌,
}
use chukrun.Base.Dict.{Dict, lookup, insert, lookup-insert, lookup-insert_self, is_some, keys}
use chukrun.Base.Text.{◌<>◌}
use chukrun.Errors.{GoError, nil, new_error, validation, provider, platform_error}

-- A provider as the registry sees it: what `Name()` returns, and the provider itself.
pub record Provider (P : Type 0) : Type 0 where
  pub name : String
  pub self : P

abbrev pub Registry : Type 0 → Type 0
Registry P = Dict (Provider P)

module _ {P : Type 0} where
  -- `Register`; `none` is a nil provider.
  unfoldable pub register : Option (Provider P) → Registry P → Registry P × GoError
  register none r = (r, new_error validation "cannot register nil provider" false nil)
  register (some p) r =
      if str_eq p.name ""
      then (r, new_error validation "cannot register provider with empty name" false nil)
      else if is_some (lookup p.name r)
      then (r, new_error validation ("provider already registered: " <> p.name) false nil)
      else (insert p.name p r, nil)

  -- `Resolve`.
  unfoldable pub resolve : String → Registry P → Option (Provider P) × GoError
  resolve name [] = (none, new_error provider "no providers registered in system" false nil)
  resolve name ((first, p) ∷ rest) =
      if str_eq name "" then (some p, nil) else elim (lookup name ((first, p) ∷ rest)) [
        | none ↦ (none, new_error provider ("provider not found: " <> name) false nil)
        | some found ↦ (some found, nil)
      ]

  -- `List`.
  unfoldable pub list : Registry P → List String
  list r = keys r
