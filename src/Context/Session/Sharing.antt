-- ===== src/Context/Session/Sharing.antt =====
-- The contexts of one session share its variables (core/context/session.go).
use chukrun.Base.{
  ℕ, zero, suc, ◌≤◌, ◌<◌, ◌≡◌, refl, ap, ◌∙◌, subst, inl, inr, String, false, List, [], ◌∷◌, ◌++◌,
  Option, none, some, length, length-append, get_elem?, get_elem?-modify, All, arith, str_eq,
  Bool-cases,
}
use mathlib.Core.Option.{some-injective}
use chukrun.Base.Int.{ℤ, ◌-ℤ◌, ◌≤ℤ◌, ltb_ℤ}
use chukrun.Base.Dict.{Dict, lookup, insert, lookup-insert_self}
use chukrun.Execution.Types.{Value}
use chukrun.Context.Session.{
  SessionEntry, SessionStore, use_or_make, is_expired, without_expired, collect, get_or_create,
  or_no_vars, get_var, set_var,
}

-- Every session has variables.
abbrev pub IsStored : ℕ → Dict SessionEntry → Type 0
IsStored n = All (λ e. SessionEntry.state e.1 < n)

abbrev pub IsStore : SessionStore → Type 0
IsStore ss = IsStored (length ss.vars) ss.sessions

IsStored-le : (a b : ℕ) (d : Dict SessionEntry) → a ≤ b → IsStored a d → IsStored b d
IsStored-le a b [] le h = tt
IsStored-le a b (e ∷ rest) le h = (omega (arith, h.0), IsStored-le a b rest le h.1)

IsStored-without_expired :
    (now expiry : ℤ) (n : ℕ) (d : Dict SessionEntry)
    → IsStored n d
    → IsStored n (without_expired now expiry d)
unfolding without_expired
IsStored-without_expired now expiry n [] h = tt
IsStored-without_expired now expiry n ((id, entry) ∷ rest) h =
    let kept = IsStored-without_expired now expiry n rest h.1 in
    elim (Bool-cases (is_expired now expiry entry)) [
      | inl old ↦ rw old kept
      | inr live ↦ rw live (h.0, kept)
    ]

IsStored-insert :
    (n : ℕ) (id : String) (entry : SessionEntry) (d : Dict SessionEntry)
    → entry.state < n
    → IsStored n d
    → IsStored n (insert id entry d)
unfolding insert
IsStored-insert n id entry [] lt h = (lt, tt)
IsStored-insert n id entry ((name, old) ∷ rest) lt h = elim (Bool-cases (str_eq name id)) [
  | inl same ↦ rw same (lt, h.1)
  | inr differ ↦ rw differ (h.0, IsStored-insert n id entry rest lt h.1)
]

IsStored-lookup :
    (n : ℕ) (id : String) (d : Dict SessionEntry) {entry : SessionEntry}
    → IsStored n d
    → lookup id d ≡ some entry
    → entry.state < n
unfolding lookup
IsStored-lookup n id [] h e = cc
IsStored-lookup n id ((name, old) ∷ rest) {entry} h e = elim (Bool-cases (str_eq name id)) [
  | inl same ↦
      let found : old ≡ entry = ground (arith, e, same) in
      subst (λ x. SessionEntry.state x < n) found h.0
  | inr differ ↦
      let e' : lookup id rest ≡ some entry = ground (arith, e, differ) in
      IsStored-lookup n id rest h.1 e'
]

-- A session that has not expired is found where it was.
lookup-without_expired :
    (now expiry : ℤ) (id : String) (d : Dict SessionEntry) {entry : SessionEntry}
    → lookup id d ≡ some entry
    → is_expired now expiry entry ≡ false
    → lookup id (without_expired now expiry d) ≡ some entry
unfolding lookup without_expired
lookup-without_expired now expiry id [] e live = cc
lookup-without_expired now expiry id ((name, old) ∷ rest) {entry} e live =
    elim (Bool-cases (str_eq name id)) [
      | inl same ↦
          let found : old ≡ entry = ground (arith, e, same) in
          let kept : is_expired now expiry old ≡ false = ap (is_expired now expiry) found ∙ live in
          rw (kept, same) (ap some found)
      | inr differ ↦
          let later = lookup-without_expired now expiry id rest (ground (arith, e, differ)) live in
          elim (Bool-cases (is_expired now expiry old)) [
            | inl gone ↦ rw gone later
            | inr kept ↦ rw (kept, differ) later
          ]
    ]

-- What `get_or_create` leaves: the session, used now, at the address that it gives.
abbrev pub IsUsed : ℤ → String → SessionStore → ℕ → Type 0
IsUsed now id ss at =
    (lookup id ss.sessions ≡ some (record { state = at; last_access = now }))
    × (at < length ss.vars)
    × IsStore ss

use_or_make-IsUsed :
    (now : ℤ) (id : String) (ss : SessionStore) (o : Option SessionEntry)
    → IsStore ss
    → lookup id ss.sessions ≡ o
    → IsUsed now id (use_or_make now id ss o).0 (use_or_make now id ss o).1
unfolding use_or_make
use_or_make-IsUsed now id ss none stored e =
    let grows = length-append ss.vars ([] ∷ []) in
    (
      lookup-insert_self id (record { state = length ss.vars; last_access = now }) ss.sessions,
      omega (arith, grows),
      IsStored-insert (length (ss.vars ++ [] ∷ [])) id
          (record { state = length ss.vars; last_access = now }) ss.sessions (omega (arith, grows))
          (IsStored-le _ _ ss.sessions (omega (arith, grows)) stored),
    )
use_or_make-IsUsed now id ss (some entry) stored e =
    let valid = IsStored-lookup (length ss.vars) id ss.sessions stored e in
    (
      lookup-insert_self id (record entry { last_access = now }) ss.sessions,
      valid,
      IsStored-insert (length ss.vars) id (record entry { last_access = now }) ss.sessions valid
          stored,
    )

use_or_make-found :
    (now : ℤ) (id : String) (ss : SessionStore) (entry : SessionEntry) (o : Option SessionEntry)
    → o ≡ some entry
    → ((use_or_make now id ss o).1 ≡ entry.state)
      × (SessionStore.vars (use_or_make now id ss o).0 ≡ ss.vars)
unfolding use_or_make
use_or_make-found now id ss entry none e = cc
use_or_make-found now id ss entry (some found) e =
    (ap SessionEntry.state (some-injective _ _ e), refl)

use_or_make-expiry :
    (now : ℤ) (id : String) (ss : SessionStore) (o : Option SessionEntry)
    → SessionStore.expiry (use_or_make now id ss o).0 ≡ ss.expiry
unfolding use_or_make
use_or_make-expiry now id ss none = refl
use_or_make-expiry now id ss (some entry) = refl

-- `GetOrCreate` keeps every session with its variables, and gives those of the session.
pub get_or_create-IsUsed :
    (now : ℤ) (id : String) (ss : SessionStore)
    → IsStore ss
    → IsUsed now id (get_or_create now id ss).0 (get_or_create now id ss).1
unfolding get_or_create collect
get_or_create-IsUsed now id ss stored =
    use_or_make-IsUsed now id (collect now ss) _
      (IsStored-without_expired now ss.expiry (length ss.vars) ss.sessions stored) refl

get_elem?-lt :
    {A : Type 0} (i : ℕ) (xs : List A) → i < length xs → (x : A) × (get_elem? xs i ≡ some x)
get_elem?-lt i [] lt = absurd (omega arith)
get_elem?-lt zero (x ∷ xs) lt = (x, refl)
get_elem?-lt (suc i) (x ∷ xs) lt = get_elem?-lt i xs (omega arith)

get_var-set_var :
    (at : ℕ) (key : String) (value : Value) (ss : SessionStore)
    → at < length ss.vars
    → get_var at key (set_var at key value ss) ≡ some value
unfolding get_var set_var
get_var-set_var at key value ss lt =
    let (vars, e) = get_elem?-lt at ss.vars lt in
    rw (get_elem?-modify at (insert key value) ss.vars e) (lookup-insert_self key value vars)

-- A variable that a context sets in its session is read by every later context of that session,
-- when the store of sessions is sound and the session was not left unused for longer than the
-- expiry; the two share one object.
pub session_shared :
    (now later : ℤ) (id key : String) (value : Value) (ss : SessionStore)
    → IsStore ss
    → later -ℤ now ≤ℤ ss.expiry
    → let (ss1, at) = get_or_create now id ss in
      let ss2 = set_var at key value ss1 in
      let (ss3, at') = get_or_create later id ss2 in (at' ≡ at) × (get_var at' key ss3 ≡ some value)
unfolding get_or_create collect set_var get_var
session_shared now later id key value ss stored in_time =
    let (ss1, at) = get_or_create now id ss in
    let (found, valid, stored1) = get_or_create-IsUsed now id ss stored in
    let ss2 = set_var at key value ss1 in
    let expiry : ss1.expiry ≡ ss.expiry = use_or_make-expiry now id (collect now ss) _ in
    let live : ltb_ℤ ss1.expiry (later -ℤ now) ≡ false = rw expiry (ground (arith, in_time)) in
    let (same, kept) =
      use_or_make-found later id (collect later ss2) (record { state = at; last_access = now }) _
        (lookup-without_expired later ss1.expiry id ss1.sessions found live) in
    (
      same,
      ap (λ vars. lookup key (or_no_vars (get_elem? vars (get_or_create later id ss2).1))) kept
          ∙ ap (λ a. lookup key (or_no_vars (get_elem? ss2.vars a))) same
          ∙ get_var-set_var at key value ss1 valid,
    )
