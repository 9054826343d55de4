-- ===== src/Execution/Manager/Slots.antt =====
-- The accounts of the slots: the semaphore, the counts of the providers, and their limits.
use chukrun.Base.{
  ℕ, ◌+◌, ◌≤◌, ◌<◌, ◌≡◌, sym, ◌∙◌, ◌≢◌, ◌⊎◌, inl, inr, String, true, false, List, [], ◌∷◌, some,
  arith, length, str_eq, eq_iff, ◌==◌, if◌then◌else◌, Bool-cases,
}
use chukrun.Base.Int.{ℤ, pos, ◌+ℤ◌, ◌-ℤ◌}
use chukrun.Base.Dict.{Dict, lookup, insert, lookup-insert, str_eq_of_ne}
use chukrun.Execution.Manager.State.{
  ExecRef, ExecutionManager, active_of, or_zero_ℤ, launch, drop_run, release_slots,
}
use chukrun.Execution.Manager.Schedule.{can_schedule}

-- How many runs go to a provider.
abbrev pub using : String → List ExecRef → ℕ
using p [] = 0
using p (r ∷ runs) = (if str_eq r.provider_ref p then 1 else 0) + using p runs

-- The semaphore counts the runs and is within its capacity; each provider's count is that of its
-- runs, and within its limit if it has one.
pub record SlotsHeld (em : ExecutionManager) : Type 0 where
  pub held : em.sem ≡ length em.runs
  pub capped : em.sem ≤ em.sem_cap
  pub counted : (p : String) → p ≢ "" → active_of em p ≡ pos (using p em.runs)
  pub limited :
      (p : String) (limit : ℕ)
      → p ≢ ""
      → lookup p em.provider_limits ≡ some limit
      → using p em.runs ≤ limit

succ_ℤ : (n : ℕ) → pos n +ℤ pos 1 ≡ pos (1 + n)
unfolding ◌+ℤ◌
succ_ℤ n = ground arith

pred_ℤ : (n : ℕ) → pos (1 + n) -ℤ pos 1 ≡ pos n
unfolding ◌-ℤ◌
pred_ℤ n = ground arith

can_schedule_free :
    (em : ExecutionManager) (ref : ExecRef) (limit n : ℕ)
    → ref.provider_ref ≢ ""
    → lookup ref.provider_ref em.provider_limits ≡ some limit
    → active_of em ref.provider_ref ≡ pos n
    → can_schedule em ref ≡ true
    → n < limit
unfolding can_schedule
can_schedule_free em ref limit n named l a can =
    ground (arith, str_eq_of_ne ref.provider_ref "" named)

abbrev bump : String → ExecRef → ℕ
bump p ref = if str_eq ref.provider_ref p then 1 else 0

-- A count that is written back changes for its provider alone.
adjusted :
    (q p : String) (v : ℤ) (m : Dict ℤ)
    → or_zero_ℤ (lookup p (insert q v m)) ≡ (if str_eq q p then v else or_zero_ℤ (lookup p m))
adjusted q p v m = ground (arith, lookup-insert q p v m)

unnamed_differs : (q p : String) → p ≢ "" → str_eq q "" ≡ true → str_eq q p ≡ false
unnamed_differs q p named empty = str_eq_of_ne q p (λ e. named (sym e ∙ (eq_iff q "").0 empty))

launch-counted :
    (em : ExecutionManager) (ref : ExecRef)
    → SlotsHeld em
    → (p : String) → p ≢ ""
    → active_of (launch ref em) p ≡ pos (bump p ref + using p em.runs)
unfolding launch
launch-counted em ref s p named =
    let q = ref.provider_ref in
    elim (Bool-cases (str_eq q "")) [
      | inl empty ↦ rw (empty, unnamed_differs q p named empty) (s.counted p named ∙ ground arith)
      | inr real ↦
          rw (real, adjusted q p (active_of em q +ℤ pos 1) em.provider_active)
            (elim (Bool-cases (str_eq q p)) [
              | inl same ↦
                  rw (same, (eq_iff q p).0 same, s.counted p named) (succ_ℤ (using p em.runs))
              | inr other ↦ rw other (s.counted p named ∙ ground arith)
            ])
    ]

launch-limited :
    (em : ExecutionManager) (ref : ExecRef)
    → SlotsHeld em
    → can_schedule em ref ≡ true
    → (p : String) (limit : ℕ) → p ≢ ""
    → lookup p em.provider_limits ≡ some limit
    → bump p ref + using p em.runs ≤ limit
launch-limited em ref s can p limit named l =
    let q = ref.provider_ref in
    elim (Bool-cases (str_eq q p)) [
      | inr other ↦ rw other (omega (arith, s.limited p limit named l))
      | inl same ↦
          let e : q ≡ p = (eq_iff q p).0 same in
          rw same (
            omega (
              arith,
              can_schedule_free em ref limit (using p em.runs) (λ z. named (sym e ∙ z)) (rw e l)
                  (rw e (s.counted p named)) can,
            ))
    ]

pub launch-SlotsHeld :
    (em : ExecutionManager) (ref : ExecRef)
    → SlotsHeld em
    → em.sem < em.sem_cap
    → can_schedule em ref ≡ true
    → SlotsHeld (launch ref em)
unfolding launch
launch-SlotsHeld em ref s free can = record {
  held = omega arith;
  capped = omega arith;
  counted = launch-counted em ref s;
  limited = launch-limited em ref s can;
}

-- The run is among those that hold a slot, and the first at its address.
abbrev pub Holding : ExecRef → List ExecRef → Type 0
Holding ref [] = ⊥
Holding ref (r ∷ runs) = (r ≡ ref) ⊎ (((r.address == ref.address) ≡ false) × Holding ref runs)

drop_run-length :
    (ref : ExecRef) (runs : List ExecRef)
    → Holding ref runs
    → length runs ≡ 1 + length (drop_run ref.address runs)
unfolding drop_run
drop_run-length ref [] h = elim h [ ]
drop_run-length ref (r ∷ runs) h = ground (arith, drop_run-length ref runs)

drop_run-using :
    (p : String) (ref : ExecRef) (runs : List ExecRef)
    → Holding ref runs
    → using p runs ≡ bump p ref + using p (drop_run ref.address runs)
unfolding drop_run
drop_run-using p ref [] h = elim h [ ]
drop_run-using p ref (r ∷ runs) h = ground (arith, drop_run-using p ref runs)

release-counted :
    (em : ExecutionManager) (ref : ExecRef)
    → SlotsHeld em
    → Holding ref em.runs
    → (p : String) → p ≢ ""
    → active_of (release_slots ref em) p ≡ pos (using p (drop_run ref.address em.runs))
unfolding release_slots
release-counted em ref s h p named =
    let q = ref.provider_ref in
    let rest = drop_run ref.address em.runs in
    elim (Bool-cases (str_eq q "")) [
      | inl empty ↦ rw empty (
          s.counted p named
          ∙ ground (arith, drop_run-using p ref em.runs h, unnamed_differs q p named empty))
      | inr real ↦
          rw (real, adjusted q p (active_of em q -ℤ pos 1) em.provider_active)
            (elim (Bool-cases (str_eq q p)) [
              | inl same ↦
                  rw
                    (
                      same,
                      (eq_iff q p).0 same,
                      s.counted p named,
                      drop_run-using p ref em.runs h,
                      same,
                    )
                    (pred_ℤ (using p rest))
              | inr other ↦
                  rw other (s.counted p named ∙ ground (arith, drop_run-using p ref em.runs h))
            ])
    ]

-- `releaseSlots` for a run that holds a slot keeps the accounts of the slots right.
pub release-SlotsHeld :
    (em : ExecutionManager) (ref : ExecRef)
    → SlotsHeld em
    → Holding ref em.runs
    → SlotsHeld (release_slots ref em)
unfolding release_slots
release-SlotsHeld em ref s h = record {
  held = omega (arith, drop_run-length ref em.runs h);
  capped = omega arith;
  counted = release-counted em ref s h;
  limited =
      λ p limit named l. omega (arith, s.limited p limit named l, drop_run-using p ref em.runs h);
}
