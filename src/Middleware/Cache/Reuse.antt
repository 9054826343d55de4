-- ===== src/Middleware/Cache/Reuse.antt =====
-- When the cache answers in place of the next handler.
use chukrun.Base.{◌≡◌, refl, sym, subst, String, none, some, if◌then◌else◌}
use chukrun.Base.Dict.{lookup, lookup-insert_self}
use chukrun.Base.Text.{◌<>◌}
use text.Mathlib.TextLemmas.{append_assoc}
use chukrun.Context.Layers.{Ctx, get_user_id}
use chukrun.Errors.{nil}
use chukrun.Execution.Types.{Value, ExecutionRequest, ExecutionResult, status_succeeded}
use chukrun.Middleware.Types.{Handler, Slot}
use chukrun.Middleware.Cache.{Cache, cache_key, use_cache, to_cache, is_success}

-- The key of a request.
abbrev pub key_of : Ctx → ExecutionRequest → String
key_of ctx req = cache_key (get_user_id ctx) req.provider_ref req.payload

-- The next handler succeeds on a request.
pub record Succeeds {S : Type 0} (next : Handler S) (ctx : Ctx) (req : ExecutionRequest) (s : S)
    (r : ExecutionResult) : Type 0 where
  pub answer : (next ctx req s).1 ≡ some r
  pub no_error : (next ctx req s).2 ≡ nil
  pub success : r.status ≡ status_succeeded

cacheable : (r : ExecutionResult) → r.status ≡ status_succeeded → to_cache (some r) nil ≡ some r
cacheable r e = subst (λ status. (if is_success status then some r else none) ≡ some r) (sym e) refl

module _ {S : Type 0} (slot : Slot S Cache) where
  -- A request whose key is in the cache gets the cached result: the next handler is not called and
  -- the state stays as it is.
  hit :
      (next : Handler S) (ctx : Ctx) (req : ExecutionRequest) (s : S) (r : ExecutionResult)
      → lookup (key_of ctx req) (slot.read s) ≡ some r
      → use_cache slot next ctx req s ≡ (s, some r, nil)
  unfolding use_cache
  hit next ctx req s r e = rw (use_cache, e) refl

  store :
      (next : Handler S) (ctx : Ctx) (req : ExecutionRequest) (s : S) (r : ExecutionResult)
      → lookup (key_of ctx req) (slot.read s) ≡ none
      → Succeeds next ctx req s r
      → lookup (key_of ctx req) (slot.read (use_cache slot next ctx req s).0) ≡ some r
  unfolding use_cache
  store next ctx req s r e ok =
      rw (use_cache, e, ok.answer, ok.no_error, cacheable r ok.success, slot.read-write)
        (lookup-insert_self (key_of ctx req) r (slot.read (next ctx req s).0))

  -- After a request that missed the cache and succeeded, any request with the same key, with any
  -- next handler, is answered by its result without a call of that handler.
  pub second_is_cached :
      (next next' : Handler S) (ctx ctx' : Ctx) (req req' : ExecutionRequest) (s : S)
      (r : ExecutionResult)
      → lookup (key_of ctx req) (slot.read s) ≡ none
      → Succeeds next ctx req s r
      → key_of ctx' req' ≡ key_of ctx req
      → let s' = (use_cache slot next ctx req s).0 in
        use_cache slot next' ctx' req' s' ≡ (s', some r, nil)
  second_is_cached next next' ctx ctx' req req' s r e ok same =
      hit next' ctx' req' (use_cache slot next ctx req s).0 r
        (rw same (store next ctx req s r e ok))

  -- A request that misses the cache and does not succeed leaves the answer and the state to the
  -- next handler.
  pub failure_not_cached :
      (next : Handler S) (ctx : Ctx) (req : ExecutionRequest) (s : S)
      → lookup (key_of ctx req) (slot.read s) ≡ none
      → to_cache (next ctx req s).1 (next ctx req s).2 ≡ none
      → use_cache slot next ctx req s ≡ next ctx req s
  unfolding use_cache
  failure_not_cached next ctx req s e fails = rw (use_cache, e, fails) refl

-- Two users share an entry where a colon moves from the name of the provider into that of the user:
-- the key of the user `u:p` for the provider `q` is that of the user `u` for `p:q`.
pub key_shared :
    (u p q : String) (payload : Value)
    → cache_key (u <> (":" <> p)) q payload ≡ cache_key u (p <> (":" <> q)) payload
unfolding cache_key
key_shared u p q payload = simp append_assoc
