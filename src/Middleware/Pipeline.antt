-- ===== src/Middleware/Pipeline.antt =====
-- core/middleware/pipeline.go.
pub mod Order
use chukrun.Base.{String, Bool, true, false, List, [], ◌∷◌, ◌++◌, any, str_eq, if◌then◌else◌}
use chukrun.Base.Text.{◌<>◌}
use chukrun.Errors.{GoError, nil, plain_error, is_nil}
use chukrun.Middleware.Types.{Capability, Middleware, Handler}

-- The pipeline is its list of middlewares.
abbrev pub Pipeline : Type 0 → Type 0
Pipeline S = List (Middleware S)

-- `provided[c]`.
unfoldable pub has : Capability → List Capability → Bool
has c [] = false
has c (d ∷ provided) = if str_eq d c then true else has c provided

unfoldable pub check_dependencies : String → List Capability → List Capability → GoError
check_dependencies name provided [] = nil
check_dependencies name provided (dep ∷ deps) =
    if has dep provided
    then check_dependencies name provided deps
    else plain_error (
        "unsatisfied dependency: middleware " <> name <> " depends on capability " <> dep
        <> " which is not provided by any earlier middleware in the chain")

-- The loop over what a middleware provides, with the set as it grows.
unfoldable pub add_provided : List Capability → List Capability → List Capability × GoError
add_provided provided [] = (provided, nil)
add_provided provided (c ∷ cs) =
    if has c provided
    then (
      provided,
      plain_error (
          "duplicate capability provider: capability " <> c
          <> " is provided by multiple middlewares"),
    )
    else add_provided (c ∷ provided) cs

module _ {S : Type 0} where
  unfoldable pub validate_from : List Capability → Pipeline S → GoError
  validate_from provided [] = nil
  validate_from provided (mw ∷ mws) =
      let missing = check_dependencies mw.name provided mw.dependencies in
      let (provided', twice) = add_provided provided mw.provides in
      let rest = validate_from provided' mws in
      if is_nil missing then (if is_nil twice then rest else twice) else missing

  -- `Validate`.
  unfoldable pub validate : Pipeline S → GoError
  unfolding validate_from
  validate mws = validate_from [] mws

  -- `Register`.
  unfoldable pub register : Middleware S → Pipeline S → Pipeline S × GoError
  register mw mws = (mws ++ mw ∷ [], nil)

  -- The loop of `Wrap`, over the middlewares from the last to the first.
  unfoldable pub wrap_loop : Pipeline S → Handler S → Handler S
  wrap_loop [] handler = handler
  wrap_loop (mw ∷ mws) handler = wrap_loop mws (mw.handle handler)

  unfoldable pub backwards : Pipeline S → Pipeline S
  backwards [] = []
  backwards (mw ∷ mws) = backwards mws ++ mw ∷ []

  -- `Wrap`.
  unfoldable pub wrap : Pipeline S → Handler S → Handler S
  unfolding wrap_loop backwards
  wrap mws core = wrap_loop (backwards mws) core
