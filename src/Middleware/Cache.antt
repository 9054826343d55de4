-- ===== src/Middleware/Cache.antt =====
-- core/middleware/cache.go.
pub mod Reuse
use chukrun.Base.{String, Bool, true, false, ◌&&◌, List, [], ◌∷◌, Option, none, some, if◌then◌else◌}
use chukrun.Base.Dict.{Dict, lookup, insert}
use chukrun.Base.Text.{◌<>◌}
use chukrun.Context.Layers.{Ctx, get_user_id}
use chukrun.Errors.{GoError, nil, is_nil}
use chukrun.Execution.Types.{
  Value, null, text, object, other_value, ExecutionRequest, ExecutionResult, ExecutionStatus,
  status_succeeded,
}
use chukrun.Middleware.Types.{Middleware, Handler, Slot, fail_open}

abbrev pub Cache : Type 0
Cache = Dict ExecutionResult

-- `%v` of a payload.
unfoldable pub print_value : Value → String
print_value null = "<nil>"
print_value (text s) = s
print_value (object _ printed) = printed
print_value (other_value printed) = printed

unfoldable pub cache_key : String → String → Value → String
unfolding print_value
cache_key user_id provider_ref payload =
    user_id <> (":" <> (provider_ref <> (":" <> print_value payload)))

abbrev pub is_success : ExecutionStatus → Bool
is_success status_succeeded = true
is_success _ = false

abbrev pub to_cache : Option ExecutionResult → GoError → Option ExecutionResult
to_cache none err = none
to_cache (some r) err = if is_nil err && is_success r.status then some r else none

module _ {S : Type 0} where
  -- `(*CachingMiddleware).Handle`.
  unfoldable pub use_cache : Slot S Cache → Handler S → Handler S
  use_cache slot next ctx req s =
      let key = cache_key (get_user_id ctx) req.provider_ref req.payload in
      let (s', res, err) = next ctx req s in
      elim (lookup key (slot.read s)) [
        | some hit ↦ (s, some hit, nil)
        | none ↦ elim (to_cache res err) [
          | none ↦ (s', res, err)
          | some r ↦ (slot.write (insert key r (slot.read s')) s', res, err)
        ]
      ]

  unfoldable pub caching : Slot S Cache → Middleware S
  caching slot = record {
    name = "Caching";
    dependencies = "authorized" ∷ [];
    provides = "cache_checked" ∷ [];
    failure_mode = fail_open;
    handle = use_cache slot;
  }
