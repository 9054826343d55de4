-- ===== src/Context/Merge/Picked.antt =====
-- One key of `mergeSessionKeys` (core/context/context.go): what a write does to the variables of two
-- sessions, which may be one and the same, and which side a variable is taken from.
use mathlib.Core.List.{Memᴰ}
use chukrun.Base.{
  ℕ, ◌≡◌, refl, ◌∙◌, ap, sym, subst, ◌≢◌, ◌⊎◌, inl, inr, String, List, [], ◌∷◌, Option, none, some,
  str_eq, eq_iff, Bool-cases, get_elem?, get_elem?-modify, modify, if◌then◌else◌, zero, suc,
}
use chukrun.Base.Dict.{ne_of_str_eq, Dict, lookup, insert, lookup-insert}
use chukrun.Context.Session.{SessionStore, get_var, set_var, or_no_vars}
use chukrun.Context.Merge.{ConflictStrategy, overlay_wins, base_wins, error_on_conflict}
use chukrun.Execution.Types.{Value}

-- A variable of the base after the merge, by those of the two sides before.
abbrev pub Picked : ConflictStrategy → Option Value → Option Value → Option Value → Type 0
Picked rule base none after = after ≡ base
Picked rule none (some o) after = after ≡ some o
Picked overlay_wins (some b) (some o) after = after ≡ some o
Picked base_wins (some b) (some o) after = after ≡ some b
Picked error_on_conflict (some b) (some o) after = ⊥

-- The variables of a session are in the store.
abbrev pub IsStoredAt : Option ℕ → SessionStore → Type 0
IsStoredAt none ss = Unit {0}
IsStoredAt (some b) ss = (vars : Dict Value) × (get_elem? ss.vars b ≡ some vars)

-- Nothing happens to the store unless both have a session.
abbrev pub VarsMerged :
    ConflictStrategy → Option ℕ → Option ℕ → SessionStore → SessionStore → Type 0
VarsMerged rule (some b) (some o) ss ss' =
    (key : String) → Picked rule (get_var b key ss) (get_var o key ss) (get_var b key ss')
VarsMerged rule _ _ ss ss' = ss' ≡ ss

-- The variables of the base after a write.
pub get_var-set_var :
    (b : ℕ) (key asked : String) (value : Value) (ss : SessionStore)
    → IsStoredAt (some b) ss
    → IsStoredAt (some b) (set_var b key value ss)
      × (get_var b asked (set_var b key value ss)
          ≡ (if str_eq key asked then some value else get_var b asked ss))
unfolding get_var set_var
get_var-set_var b key asked value ss (vars, there) =
    let moved = get_elem?-modify b (insert key value) ss.vars there in
    ((insert key value vars, moved), rw (moved, there) (lookup-insert key asked value vars))

-- Those of the overlay, of which the written value is one: the same, whether the overlay's session
-- is the base's or another.
get_elem?-modify_cases :
    {A : Type 0}
    → (f : A → A) (b o : ℕ) (xs : List A) → (get_elem? (modify b f xs) o ≡ get_elem? xs o) ⊎ (b ≡ o)
get_elem?-modify_cases f b o [] = inl refl
get_elem?-modify_cases f zero zero (x ∷ xs) = inr refl
get_elem?-modify_cases f zero (suc o) (x ∷ xs) = inl refl
get_elem?-modify_cases f (suc b) zero (x ∷ xs) = inl refl
get_elem?-modify_cases f (suc b) (suc o) (x ∷ xs) = elim (get_elem?-modify_cases f b o xs) [
  | inl same ↦ inl same
  | inr equal ↦ inr (ap suc equal)
]

own_kept :
    (b : ℕ) (key asked : String) (value : Value) (ss : SessionStore)
    → IsStoredAt (some b) ss
    → get_var b key ss ≡ some value
    → get_var b asked (set_var b key value ss) ≡ get_var b asked ss
own_kept b key asked value ss stored has =
    let written = (get_var-set_var b key asked value ss stored).1 in
    elim (Bool-cases (str_eq key asked)) [
      | inl same ↦
          written ∙ rw same (sym has ∙ ap (λ k. get_var b k ss) ((eq_iff key asked).0 same))
      | inr other ↦ written ∙ rw other refl
    ]

overlay_kept :
    (b o : ℕ) (key asked : String) (value : Value) (ss : SessionStore)
    → IsStoredAt (some b) ss
    → get_var o key ss ≡ some value
    → get_var o asked (set_var b key value ss) ≡ get_var o asked ss
unfolding get_var set_var
overlay_kept b o key asked value ss stored has =
    elim (get_elem?-modify_cases (insert key value) b o ss.vars) [
      | inl same ↦ ap (λ vars. lookup asked (or_no_vars vars)) same
      | inr equal ↦
          subst (λ i. get_var i asked (set_var b key value ss) ≡ get_var i asked ss) equal
            (own_kept b key asked value ss stored
              (subst (λ i. get_var i key ss ≡ some value) (sym equal) has))
    ]

-- A key of the list is picked, and any other is as it was.
abbrev pub Settles :
    ConflictStrategy → ℕ → ℕ → List String → SessionStore → SessionStore → String → Type 0
Settles rule b o ks ss ss' asked =
    Picked rule (get_var b asked ss) (get_var o asked ss) (get_var b asked ss')
    ⊎ ((get_var b asked ss' ≡ get_var b asked ss) × ¬ Memᴰ asked ks)

Picked-twice :
    (rule : ConflictStrategy) (v : Value) (after : Option Value)
    → Picked rule (some v) (some v) after
    → after ≡ some v
Picked-twice overlay_wins v after p = p
Picked-twice base_wins v after p = p
Picked-twice error_on_conflict v after p = absurd p

not_in : (k asked : String) (ks : List String) → k ≢ asked → ¬ Memᴰ asked ks → ¬ Memᴰ asked (k ∷ ks)
not_in k asked ks other out (Memᴰ.head e) = other (sym e)
not_in k asked ks other out (Memᴰ.tail m) = out m

-- A key that the overlay has not.
pub skipped :
    (rule : ConflictStrategy) (b o : ℕ) (k : String) (ks : List String) (ss ss' : SessionStore)
    (asked : String)
    → get_var o k ss ≡ none
    → Settles rule b o ks ss ss' asked
    → Settles rule b o (k ∷ ks) ss ss' asked
skipped rule b o k ks ss ss' asked missing (inl p) = inl p
skipped rule b o k ks ss ss' asked missing (inr (same, out)) = elim (Bool-cases (str_eq k asked)) [
  | inl equal ↦ inl (
      subst (λ y. Picked rule (get_var b asked ss) y (get_var b asked ss'))
        (sym missing ∙ ap (λ i. get_var o i ss) ((eq_iff k asked).0 equal)) same)
  | inr other ↦ inr (same, not_in k asked ks (ne_of_str_eq k asked other) out)
]

-- A key that is written: where the base has none, or the overlay wins.
pub written :
    (rule : ConflictStrategy) (b o : ℕ) (k : String) (v : Value) (ks : List String)
    (ss ss' : SessionStore) (asked : String)
    → IsStoredAt (some b) ss
    → get_var o k ss ≡ some v
    → ((after : Option Value) → after ≡ some v → Picked rule (get_var b k ss) (some v) after)
    → Settles rule b o ks (set_var b k v ss) ss' asked
    → Settles rule b o (k ∷ ks) ss ss' asked
written rule b o k v ks ss ss' asked stored has picks later =
    let base_now = (get_var-set_var b k asked v ss stored).1 in
    let overlay_now = overlay_kept b o k asked v ss stored has in
    elim (Bool-cases (str_eq k asked)) [
      | inr other ↦
          let kept : get_var b asked (set_var b k v ss) ≡ get_var b asked ss =
            base_now ∙ rw other refl in
          elim later [
            | inl p ↦ inl (
                subst (λ y. Picked rule (get_var b asked ss) y (get_var b asked ss')) overlay_now
                  (subst
                    (λ x. Picked rule x (get_var o asked (set_var b k v ss)) (get_var b asked ss'))
                    kept p))
            | inr (same, out) ↦
                inr (same ∙ kept, not_in k asked ks (ne_of_str_eq k asked other) out)
          ]
      | inl equal ↦
          let at : k ≡ asked = (eq_iff k asked).0 equal in
          let base_v : get_var b asked (set_var b k v ss) ≡ some v = base_now ∙ rw equal refl in
          let overlay_v : get_var o asked ss ≡ some v = ap (λ i. get_var o i ss) (sym at) ∙ has in
          let ends : get_var b asked ss' ≡ some v = elim later [
            | inl p ↦ Picked-twice rule v _ (
                subst (λ y. Picked rule (some v) y (get_var b asked ss')) (overlay_now ∙ overlay_v)
                  (subst
                    (λ x. Picked rule x (get_var o asked (set_var b k v ss)) (get_var b asked ss'))
                    base_v p))
            | inr (same, out) ↦ same ∙ base_v
          ] in
          inl (
            subst (λ y. Picked rule (get_var b asked ss) y (get_var b asked ss')) (sym overlay_v)
              (subst (λ i. Picked rule (get_var b i ss) (some v) (get_var b asked ss')) at
                (picks _ ends)))
    ]

-- A key of both that stays as the base has it.
pub left_alone :
    (b o : ℕ) (k : String) (u v : Value) (ks : List String) (ss ss' : SessionStore) (asked : String)
    → get_var o k ss ≡ some v
    → get_var b k ss ≡ some u
    → Settles base_wins b o ks ss ss' asked
    → Settles base_wins b o (k ∷ ks) ss ss' asked
left_alone b o k u v ks ss ss' asked has old (inl p) = inl p
left_alone b o k u v ks ss ss' asked has old (inr (same, out)) =
    elim (Bool-cases (str_eq k asked)) [
      | inr other ↦ inr (same, not_in k asked ks (ne_of_str_eq k asked other) out)
      | inl equal ↦
          let at : k ≡ asked = (eq_iff k asked).0 equal in
          let base_u : get_var b asked ss ≡ some u = ap (λ i. get_var b i ss) (sym at) ∙ old in
          let overlay_v : get_var o asked ss ≡ some v = ap (λ i. get_var o i ss) (sym at) ∙ has in
          inl (
            subst (λ y. Picked base_wins (get_var b asked ss) y (get_var b asked ss'))
              (sym overlay_v)
              (subst (λ x. Picked base_wins x (some v) (get_var b asked ss')) (sym base_u)
                (same ∙ base_u)))
    ]

pub picks_new :
    (rule : ConflictStrategy) (v : Value) (base after : Option Value)
    → base ≡ none
    → after ≡ some v
    → Picked rule base (some v) after
picks_new rule v none after missing e = e
picks_new rule v (some u) after missing e = cc

pub picks_over :
    (v : Value) (base after : Option Value)
    → after ≡ some v
    → Picked overlay_wins base (some v) after
picks_over v none after e = e
picks_over v (some u) after e = e
