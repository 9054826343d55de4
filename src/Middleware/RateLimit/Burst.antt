-- ===== src/Middleware/RateLimit/Burst.antt =====
-- How many requests of one user pass while the clock stands still.
use chukrun.Base.{
  ℕ, zero, suc, ◌+◌, ◌≤◌, ◌<◌, ◌≡◌, refl, ◌∙◌, String, true, false, arith, ltb, lt→ltb, min, subst,
  if◌then◌else◌,
}
use chukrun.Base.Dict.{lookup, insert, lookup-insert_self}
use chukrun.Context.Layers.{FloatOps}
use chukrun.Middleware.RateLimit.{
  TokenBucket, Limiter, new_limiter, bucket_of, refill_tokens, take_token,
}

-- What the limiter needs of float64: the small numbers `0, 1, …, top` are exact, the difference of a
-- time and itself is 0 seconds, and 0 times the rate is 0.
pub record Exact (f : FloatOps) (seconds : ℕ → ℕ → ℕ) (rate : ℕ) (top : ℕ) : Type 0 where
  pub of_ℕ : ℕ → ℕ
  pub one : of_ℕ 1 ≡ f.one_f
  pub no_time : (t : ℕ) → f.mul_f (seconds t t) rate ≡ f.zero_f
  pub add_zero : (n : ℕ) → n ≤ top → f.add_f (of_ℕ n) f.zero_f ≡ of_ℕ n
  pub sub_one : (n : ℕ) → n < top → f.sub_f (of_ℕ (suc n)) f.one_f ≡ of_ℕ n
  pub less : (a b : ℕ) → a ≤ top → b ≤ top → f.lt_f (of_ℕ a) (of_ℕ b) ≡ ltb a b

-- That many requests of a user at one time: how many of them are let through.
unfoldable pub passed : FloatOps → (ℕ → ℕ → ℕ) → ℕ → String → ℕ → Limiter → ℕ
passed f seconds now user zero m = 0
passed f seconds now user (suc k) m =
    let (m', allowed) = take_token f seconds now now user m in
    (if allowed then 1 else 0) + passed f seconds now user k m'

module _ (f : FloatOps) (seconds : ℕ → ℕ → ℕ) (rate top : ℕ) (x : Exact f seconds rate top) where
  -- The bucket of a user holds `n` tokens at a time.
  record Holds (user : String) (now n : ℕ) (m : Limiter) : Type 0 where
    capped : m.capacity ≡ x.of_ℕ top
    same_rate : m.rate ≡ rate
    bucket : bucket_of now user m ≡ record { tokens = x.of_ℕ n; last_tick = now }

  no_refill :
      (user : String) (now n : ℕ) (m : Limiter)
      → n ≤ top
      → Holds user now n m
      → refill_tokens f seconds now m (bucket_of now user m) ≡ x.of_ℕ n
  unfolding refill_tokens
  no_refill user now n m le h =
      rw
        (
          refill_tokens,
          h.bucket,
          h.same_rate,
          h.capped,
          x.no_time now,
          x.add_zero n le,
          x.less top n (omega arith) le,
        )
        ground arith

  low : 1 ≤ top → f.lt_f (x.of_ℕ 0) f.one_f ≡ true
  low big =
      subst (λ o. f.lt_f (x.of_ℕ 0) o ≡ true) x.one
        (x.less 0 1 (omega arith) big ∙ lt→ltb 0 1 (omega arith))

  enough : (n : ℕ) → suc n ≤ top → f.lt_f (x.of_ℕ (suc n)) f.one_f ≡ false
  enough n big =
      subst (λ o. f.lt_f (x.of_ℕ (suc n)) o ≡ false) x.one
        (x.less (suc n) 1 big (omega arith) ∙ ground arith)

  -- The limiter with that many tokens for a user.
  with_tokens : String → ℕ → ℕ → Limiter → Limiter
  with_tokens user now n m = record m {
    buckets = insert user (record { tokens = x.of_ℕ n; last_tick = now }) m.buckets;
  }

  with_tokens-Holds :
      (user : String) (now n k : ℕ) (m : Limiter)
      → Holds user now n m
      → Holds user now k (with_tokens user now k m)
  unfolding bucket_of with_tokens
  with_tokens-Holds user now n k m h = record {
    capped = h.capped;
    same_rate = h.same_rate;
    bucket = rw (bucket_of, lookup-insert_self user (the_bucket k) m.buckets) refl;
  }
    where
      the_bucket : ℕ → TokenBucket
      the_bucket k = record { tokens = x.of_ℕ k; last_tick = now }

  empty_bucket :
      (user : String) (now : ℕ) (m : Limiter)
      → 1 ≤ top
      → Holds user now 0 m
      → take_token f seconds now now user m ≡ (with_tokens user now 0 m, false)
  unfolding take_token with_tokens
  empty_bucket user now m big h =
      rw (take_token, no_refill user now 0 m (omega arith) h, low big) refl

  full_bucket :
      (user : String) (now n : ℕ) (m : Limiter)
      → suc n ≤ top
      → Holds user now (suc n) m
      → take_token f seconds now now user m ≡ (with_tokens user now n m, true)
  unfolding take_token with_tokens
  full_bucket user now n m big h =
      rw (take_token, no_refill user now (suc n) m big h, enough n big, x.sub_one n (omega arith))
        refl

  passed_from :
      (user : String) (now n k : ℕ) (m : Limiter)
      → 1 ≤ top
      → n ≤ top
      → Holds user now n m
      → passed f seconds now user k m ≡ min k n
  unfolding passed
  passed_from user now n zero m big le h = ground arith
  passed_from user now zero (suc k) m big le h =
      let next = with_tokens-Holds user now 0 0 m h in
      rw (passed, empty_bucket user now m big h, passed_from user now zero k _ big le next) omega
        arith
  passed_from user now (suc n) (suc k) m big le h =
      let next = with_tokens-Holds user now (suc n) n m h in
      rw (passed, full_bucket user now n m le h, passed_from user now n k _ big (omega arith) next)
        omega arith

  -- A limiter whose capacity is a whole number lets through, of the requests that a new user makes
  -- at one time, as many as the capacity and no more.
  pub burst :
      (user : String) (now k : ℕ)
      → 1 ≤ top
      → passed f seconds now user k (new_limiter rate (x.of_ℕ top)) ≡ min k top
  unfolding bucket_of lookup
  burst user now k big =
      passed_from user now top k _ big (omega arith)
        (record { capped = refl; same_rate = refl; bucket = refl })
