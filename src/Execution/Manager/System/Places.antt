-- ===== src/Execution/Manager/System/Places.antt =====
-- The places at which an execution can stand, what the accounts of the engine are with everything
-- that runs at once, and what a change must keep of them.
use mathlib.Core.List.{Memᴰ}
use chukrun.Base.{
  ℕ, ◌+◌, ◌≤◌, ◌≡◌, sym, inl, inr, String, Bool, List, [], ◌∷◌, length, arith, ltb, ◌==◌,
  Bool-cases, if◌then◌else◌,
}
use chukrun.Base.Dict.{Dict}
use chukrun.Execution.Scheduler.{PriorityScheduler, remove}
use chukrun.Execution.Scheduler.Dispatch.{count, count_queues, held}
use chukrun.Execution.Scheduler.Contents.{Removed, gone, absent, remove-Removed}
use chukrun.Execution.Manager.State.{ExecRef, drop_run}
use chukrun.Execution.Manager.Slots.{SlotsHeld, Holding}
use chukrun.Execution.Manager.System.{System, IsRunning}

-- The reference is to this address.
abbrev pub is_at : ℕ → ExecRef → Bool
is_at a ref = ref.address == a

-- At how many places the execution of an address stands.
abbrev pub places : ℕ → System → ℕ
places a sys =
    count (is_at a) sys.admitted
    + held (is_at a) sys.manager.scheduler
    + count (is_at a) sys.manager.runs

-- An address at which an execution is stands at one place at most, any other at none.
abbrev pub bound : ℕ → System → ℕ
bound a sys = if ltb a (length sys.manager.store) then 1 else 0

pub record IsSystem (sys : System) : Type 0 where
  pub slots : SlotsHeld sys.manager
  pub once : (a : ℕ) → places a sys ≤ bound a sys

-- The counts of the two lists when a reference leaves one.
pub count-drop_run :
    (f : ExecRef → Bool) (ref : ExecRef) (runs : List ExecRef)
    → Holding ref runs
    → count f runs ≡ count f (ref ∷ []) + count f (drop_run ref.address runs)
unfolding drop_run
count-drop_run f ref [] h = elim h [ ]
count-drop_run f ref (r ∷ runs) h = ground (arith, count-drop_run f ref runs)

-- Where an address stands once, a reference to it is the first.
pub Memᴰ-Holding :
    (ref : ExecRef) (runs : List ExecRef)
    → Memᴰ ref runs
    → count (is_at ref.address) runs ≤ 1
    → Holding ref runs
Memᴰ-Holding ref [] m few = elim m [ ]
Memᴰ-Holding ref (r ∷ runs) (Memᴰ.head e) few = inl (sym e)
Memᴰ-Holding ref (r ∷ runs) (Memᴰ.tail m) few =
    let among = count-Memᴰ ref runs m in
    elim (Bool-cases (r.address == ref.address)) [
      | inl same ↦ absurd (ground (arith, few, among, same))
      | inr differ ↦ inr (differ, Memᴰ-Holding ref runs m (ground (arith, few, differ)))
    ]
  where
    count-Memᴰ :
        (ref : ExecRef) (runs : List ExecRef) → Memᴰ ref runs → 1 ≤ count (is_at ref.address) runs
    count-Memᴰ ref [] m = elim m [ ]
    count-Memᴰ ref (r ∷ runs) (Memᴰ.head e) = rw (sym e) ground arith
    count-Memᴰ ref (r ∷ runs) (Memᴰ.tail m) = omega (arith, count-Memᴰ ref runs m)

-- `Remove` takes no place.
pub remove-held :
    (f : ExecRef → Bool) (id : String) (ps : PriorityScheduler ExecRef)
    → held f (remove (λ r. r.id) id ps).1 ≤ held f ps
remove-held f id ps = fewer (remove-Removed (λ r. r.id) id ps)
  where
    fewer :
        {r : Bool × Dict (List ExecRef)}
        → Removed (λ (r : ExecRef). r.id) id ps.queues r
        → count_queues f r.1 ≤ count_queues f ps.queues
    fewer (gone e same less) = omega (arith, less f)
    fewer (absent same others) = rw same omega arith

-- What a change must keep: the accounts of the slots, and that no address gains a place.
module _ (sys : System) (inv : IsSystem sys) where
  pub kept :
      (sys' : System)
      → SlotsHeld sys'.manager
      → length sys'.manager.store ≡ length sys.manager.store
      → ((a : ℕ) → places a sys' ≤ places a sys)
      → IsSystem sys'
  kept sys' slots same fewer = record {
    slots = slots;
    once = λ a. rw same omega (arith, fewer a, inv.once a);
  }

  pub few_runs : (a : ℕ) → count (is_at a) sys.manager.runs ≤ 1
  few_runs a = ground (arith, inv.once a)

  pub few_admitted : (a : ℕ) → count (is_at a) sys.admitted ≤ 1
  few_admitted a = ground (arith, inv.once a)

  pub running : (ref : ExecRef) → IsRunning sys ref → Holding ref sys.manager.runs
  running ref m = Memᴰ-Holding ref sys.manager.runs m (few_runs ref.address)
