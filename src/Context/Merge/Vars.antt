-- ===== src/Context/Merge/Vars.antt =====
-- What `mergeSession` does to the variables of two sessions (core/context/context.go), which may be
-- one and the same.
use mathlib.Core.List.{Memᴰ}
use chukrun.Base.{
  ℕ, ◌≡◌, refl, sym, subst, inl, inr, String, true, List, [], ◌∷◌, Option, none, some, arith,
  str_eq, eq_iff, Bool-cases, Option-cases, get_elem?,
}
use chukrun.Base.Dict.{Dict, lookup, keys}
use chukrun.Context.Layers.{Ctx, SessionLayer, get_session}
use chukrun.Context.Session.{SessionStore, get_var, set_var, or_no_vars}
use chukrun.Context.Merge.{
  ConflictStrategy, overlay_wins, base_wins, error_on_conflict, merge_session_keys, merge_states,
  merge_session, take_session,
}
use chukrun.Errors.{is_nil}
use chukrun.Execution.Types.{Value}
use chukrun.Context.Merge.Picked.{
  Picked, IsStoredAt, VarsMerged, get_var-set_var, Settles, skipped, written, left_alone, picks_new,
  picks_over,
}

-- A key that both sides have.
on_both :
    (rule : ConflictStrategy) (b o : ℕ) (k : String) (ks : List String) (ss : SessionStore)
    (asked : String)
    → IsStoredAt (some b) ss
    → (u v : Value)
    → ((ss' : SessionStore)
        → IsStoredAt (some b) ss'
        → is_nil (merge_session_keys rule b o ks ss').1 ≡ true
        → Settles rule b o ks ss' (merge_session_keys rule b o ks ss').0 asked)
    → get_var o k ss ≡ some v
    → get_var b k ss ≡ some u
    → is_nil (merge_session_keys rule b o (k ∷ ks) ss).1 ≡ true
    → Settles rule b o (k ∷ ks) ss (merge_session_keys rule b o (k ∷ ks) ss).0 asked
unfolding merge_session_keys
on_both overlay_wins b o k ks ss asked stored u v later has old ok =
    let step : merge_session_keys overlay_wins b o (k ∷ ks) ss
        ≡ merge_session_keys overlay_wins b o ks (set_var b k v ss) =
      rw (merge_session_keys, has, old) refl in
    subst (λ r. Settles overlay_wins b o (k ∷ ks) ss r.0 asked) (sym step)
      (written overlay_wins b o k v ks ss _ asked stored has
        (λ after e. picks_over v (get_var b k ss) after e)
        (later (set_var b k v ss) (get_var-set_var b k asked v ss stored).0
          (subst (λ r. is_nil r.1 ≡ true) step ok)))
on_both base_wins b o k ks ss asked stored u v later has old ok =
    let step : merge_session_keys base_wins b o (k ∷ ks) ss
        ≡ merge_session_keys base_wins b o ks ss =
      rw (merge_session_keys, has, old) refl in
    subst (λ r. Settles base_wins b o (k ∷ ks) ss r.0 asked) (sym step)
      (left_alone b o k u v ks ss _ asked has old
        (later ss stored (subst (λ r. is_nil r.1 ≡ true) step ok)))
on_both error_on_conflict b o k ks ss asked stored u v later has old ok =
    ground (arith, ok, has, old)

keys_settle :
    (rule : ConflictStrategy) (b o : ℕ) (ks : List String) (ss : SessionStore) (asked : String)
    → IsStoredAt (some b) ss
    → is_nil (merge_session_keys rule b o ks ss).1 ≡ true
    → Settles rule b o ks ss (merge_session_keys rule b o ks ss).0 asked
unfolding merge_session_keys
keys_settle rule b o [] ss asked stored ok = inr (refl, λ m. elim m [ ])
keys_settle rule b o (k ∷ ks) ss asked stored ok = elim (Option-cases (get_var o k ss)) [
  | inl missing ↦
      let step : merge_session_keys rule b o (k ∷ ks) ss ≡ merge_session_keys rule b o ks ss =
        rw (merge_session_keys, missing) refl in
      subst (λ r. Settles rule b o (k ∷ ks) ss r.0 asked) (sym step)
        (skipped rule b o k ks ss _ asked missing
          (keys_settle rule b o ks ss asked stored (subst (λ r. is_nil r.1 ≡ true) step ok)))
  | inr (v, has) ↦ elim (Option-cases (get_var b k ss)) [
    | inl free ↦
        let step : merge_session_keys rule b o (k ∷ ks) ss
            ≡ merge_session_keys rule b o ks (set_var b k v ss) =
          rw (merge_session_keys, has, free) refl in
        subst (λ r. Settles rule b o (k ∷ ks) ss r.0 asked) (sym step)
          (written rule b o k v ks ss _ asked stored has
            (λ after e. picks_new rule v (get_var b k ss) after free e)
            (keys_settle rule b o ks (set_var b k v ss) asked
              (get_var-set_var b k asked v ss stored).0 (subst (λ r. is_nil r.1 ≡ true) step ok)))
    | inr (u, old) ↦
        on_both rule b o k ks ss asked stored u v
          (λ ss' stored' ok'. keys_settle rule b o ks ss' asked stored' ok') has old ok
  ]
]

-- A variable stands among the keys of its session.
lookup_out :
    (vars : Dict Value) (asked : String) → ¬ Memᴰ asked (keys vars) → lookup asked vars ≡ none
unfolding lookup
lookup_out [] asked out = refl
lookup_out ((k, v) ∷ vars) asked out = elim (Bool-cases (str_eq k asked)) [
  | inl same ↦ absurd (out (Memᴰ.head (sym ((eq_iff k asked).0 same))))
  | inr other ↦ rw other (lookup_out vars asked (λ m. out (Memᴰ.tail m)))
]

states_VarsMerged :
    (rule : ConflictStrategy) (b o : ℕ) (ss : SessionStore)
    → IsStoredAt (some b) ss
    → is_nil (merge_states rule (some b) (some o) ss).1 ≡ true
    → VarsMerged rule (some b) (some o) ss (merge_states rule (some b) (some o) ss).0
unfolding merge_states get_var
states_VarsMerged rule b o ss stored ok asked =
    let vars = or_no_vars (get_elem? ss.vars o) in
    elim (keys_settle rule b o (keys vars) ss asked stored ok) [
      | inl picked ↦ picked
      | inr (same, out) ↦
          subst
            (λ y.
              Picked rule (get_var b asked ss) y
                (get_var b asked (merge_session_keys rule b o (keys vars) ss).0))
            (sym (lookup_out vars asked out)) same
    ]

any-VarsMerged :
    (rule : ConflictStrategy) (x y : Option ℕ) (ss : SessionStore)
    → IsStoredAt x ss
    → is_nil (merge_states rule x y ss).1 ≡ true
    → VarsMerged rule x y ss (merge_states rule x y ss).0
unfolding merge_states
any-VarsMerged rule none y ss stored ok = refl
any-VarsMerged rule (some b) none ss stored ok = refl
any-VarsMerged rule (some b) (some o) ss stored ok = states_VarsMerged rule b o ss stored ok

vars_same :
    (rule : ConflictStrategy) (x : Option ℕ) (ss : SessionStore) → VarsMerged rule x none ss ss
vars_same rule none ss = refl
vars_same rule (some b) ss = refl

-- The store after a merge of sessions that met no conflict.
pub session-VarsMerged :
    (rule : ConflictStrategy) (base overlay merged : Ctx) (b o : Option SessionLayer)
    (ss : SessionStore)
    → let based : Ctx = record base { session = b } in
      let overlaid : Ctx = record overlay { session = o } in
      IsStoredAt (get_session based) ss
      → is_nil (merge_session rule based overlaid merged ss).2 ≡ true
      → VarsMerged rule
          (get_session based)
          (get_session overlaid)
          ss
          (merge_session rule based overlaid merged ss).0
unfolding merge_session take_session
session-VarsMerged rule base overlay merged b none ss stored ok =
    vars_same rule (get_session (record base { session = b })) ss
session-VarsMerged rule base overlay merged none (some ol) ss stored ok = refl
session-VarsMerged rule base overlay merged (some bl) (some ol) ss stored ok =
    any-VarsMerged rule bl.state ol.state ss stored ok
