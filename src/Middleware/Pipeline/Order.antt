-- ===== src/Middleware/Pipeline/Order.antt =====
-- The order of the pipeline: what `Validate` accepts, and the order in which `Wrap` runs.
use chukrun.Base.{
  ◌≡◌, refl, sym, ◌∙◌, ap, subst, ◌≢◌, ◌⊎◌, ◌↔◌, inl, inr, String, Bool, true, false, ◌||◌, List,
  [], ◌∷◌, ◌++◌, arith, eq_iff, eq_refl, Bool-cases,
}
use chukrun.Errors.{nil, is_nil, nil_cases}
use chukrun.Middleware.Types.{Capability, Middleware, Handler}
use chukrun.Middleware.Pipeline.{
  Pipeline, has, check_dependencies, add_provided, validate_from, validate, register, wrap_loop,
  backwards, wrap,
}

ne_true : {b : Bool} → b ≡ false → b ≢ true
ne_true e t = cc

has-append : (c : Capability) (cs ds : List Capability) → has c (cs ++ ds) ≡ (has c cs || has c ds)
unfolding has
has-append c [] ds = refl
has-append c (d ∷ cs) ds = ground (arith, has-append c cs ds)

dependencies_met :
    (name : String) (provided deps : List Capability) (d : Capability)
    → is_nil (check_dependencies name provided deps) ≡ true
    → has d deps ≡ true
    → has d provided ≡ true
unfolding check_dependencies has
dependencies_met name provided [] d ok h = ground arith
dependencies_met name provided (dep ∷ deps) d ok h =
    ground (arith, eq_iff dep d, dependencies_met name provided deps d)

dependency_missing :
    (name : String) (provided deps : List Capability)
    → is_nil (check_dependencies name provided deps) ≡ false
    → (d : Capability) × (has d deps ≡ true) × (has d provided ≡ false)
unfolding check_dependencies has
dependency_missing name provided [] bad = absurd (ne_true bad refl)
dependency_missing name provided (dep ∷ deps) bad = elim (Bool-cases (has dep provided)) [
  | inr missing ↦ (dep, rw (has, eq_refl dep) refl, missing)
  | inl there ↦
      let (d, among, missing) =
        dependency_missing name provided deps (ground (arith, there, bad)) in
      (d, ground (arith, among), missing)
]

-- The set that `Validate` keeps after a middleware: what was there and what it provides.
provided_set :
    (provided cs : List Capability) (d : Capability)
    → is_nil (add_provided provided cs).1 ≡ true
    → has d (add_provided provided cs).0 ≡ (has d provided || has d cs)
unfolding add_provided has
provided_set provided [] d ok = ground arith
provided_set provided (c ∷ cs) d ok = elim (Bool-cases (has c provided)) [
  | inl there ↦ ground (arith, there, ok)
  | inr new ↦ ground (arith, new, provided_set (c ∷ provided) cs d, ok)
]

provided_once :
    (provided before : List Capability) (c : Capability) (after : List Capability)
    → is_nil (add_provided provided (before ++ c ∷ after)).1 ≡ true
    → (has c provided || has c before) ≡ false
unfolding add_provided has
provided_once provided [] c after ok = ground arith
provided_once provided (b ∷ before) c after ok = elim (Bool-cases (has b provided)) [
  | inl there ↦ ground (arith, there, ok)
  | inr new ↦ ground (arith, new, provided_once (b ∷ provided) before c after, ok)
]

provided_twice :
    (provided cs : List Capability)
    → is_nil (add_provided provided cs).1 ≡ false
    → (before : List Capability) × (c : Capability) × (after : List Capability) × (cs
        ≡ before ++ c ∷ after)
      × ((has c provided || has c before) ≡ true)
unfolding add_provided has
provided_twice provided [] bad = absurd (ne_true bad refl)
provided_twice provided (c ∷ cs) bad = elim (Bool-cases (has c provided)) [
  | inl there ↦ ([], c, cs, refl, rw there refl)
  | inr new ↦
      let (before, d, after, split, known) =
        provided_twice (c ∷ provided) cs (ground (arith, new, bad)) in
      (c ∷ before, d, after, ap (λ z. c ∷ z) split, ground (arith, known))
]

-- What is wrong with a middleware whose predecessors provide the capabilities that `known` tells: a
-- dependency that none of them provides, or a capability that one of them or the middleware itself
-- provides already.
pub data Fault {S : Type 0} (known : Capability → Bool) (mw : Middleware S) : Type 0 where
  unmet : (d : Capability) → has d mw.dependencies ≡ true → known d ≡ false → Fault known mw
  twice :
      (before : List Capability) (c : Capability) (after : List Capability)
      → mw.provides ≡ before ++ c ∷ after
      → (known c || has c before) ≡ true
      → Fault known mw

module _ {S : Type 0} where
  -- Everything that these middlewares provide.
  abbrev pub offered : Pipeline S → List Capability
  offered [] = []
  offered (mw ∷ mws) = mw.provides ++ offered mws

  loop-append :
      (xs ys : Pipeline S) (h : Handler S) → wrap_loop (xs ++ ys) h ≡ wrap_loop ys (wrap_loop xs h)
  unfolding wrap_loop
  loop-append [] ys h = refl
  loop-append (x ∷ xs) ys h = loop-append xs ys (x.handle h)

  -- The first middleware is the outermost: its `Handle` is called with the chain of the others, down
  -- to the core handler.
  pub wrap_first :
      (mw : Middleware S) (mws : Pipeline S) (core : Handler S)
      → wrap (mw ∷ mws) core ≡ mw.handle (wrap mws core)
  unfolding wrap wrap_loop backwards
  wrap_first mw mws core = loop-append (backwards mws) (mw ∷ []) core

  -- A middleware that is registered runs inside all those before it, next to the core handler.
  pub wrap-register :
      (mw : Middleware S) (mws : Pipeline S) (core : Handler S)
      → wrap (register mw mws).0 core ≡ wrap mws (mw.handle core)
  unfolding register wrap
  wrap-register mw [] core = wrap_first mw [] core
  wrap-register mw (m ∷ mws) core =
      wrap_first m (mws ++ mw ∷ []) core
      ∙ ap m.handle (wrap-register mw mws core)
      ∙ sym (wrap_first m mws (mw.handle core))

  same-Fault :
      {known known' : Capability → Bool} (mw : Middleware S)
      → ((d : Capability) → known d ≡ known' d)
      → Fault known mw
      → Fault known' mw
  same-Fault mw same (unmet d among missing) = unmet d among (sym (same d) ∙ missing)
  same-Fault {known} {known'} mw same (twice before c after split there) =
      twice before c after split (rw⁻¹ (same c) there)

  -- What the middlewares before a position provide, on top of a set.
  abbrev after_all : List Capability → Pipeline S → Capability → Bool
  after_all provided before d = has d provided || has d (offered before)

  step_known :
      (provided : List Capability) (mw : Middleware S) (before : Pipeline S) (d : Capability)
      → is_nil (add_provided provided mw.provides).1 ≡ true
      → after_all (add_provided provided mw.provides).0 before d
        ≡ after_all provided (mw ∷ before) d
  step_known provided mw before d ok =
      ground
        (arith, provided_set provided mw.provides d ok, has-append d mw.provides (offered before))

  head_faultless :
      (provided : List Capability) (mw : Middleware S)
      → is_nil (check_dependencies mw.name provided mw.dependencies) ≡ true
      → is_nil (add_provided provided mw.provides).1 ≡ true
      → Fault (λ d. after_all provided [] d) mw
      → ⊥
  unfolding has
  head_faultless provided mw met once (unmet d among missing) =
      ground (arith, dependencies_met mw.name provided mw.dependencies d met among)
  head_faultless provided mw met once (twice before c after split there) = ground (
    arith,
    provided_once provided before c after
        (subst (λ cs. is_nil (add_provided provided cs).1 ≡ true) split once),
  )

  accept_from :
      (provided : List Capability) (before : Pipeline S) (mw : Middleware S) (after : Pipeline S)
      → is_nil (validate_from provided (before ++ mw ∷ after)) ≡ true
      → Fault (λ d. after_all provided before d) mw
      → ⊥
  unfolding validate_from
  accept_from provided [] mw after ok fault =
      head_faultless provided mw (ground (arith, ok)) (ground (arith, ok)) fault
  accept_from provided (m ∷ before) mw after ok fault =
      accept_from (add_provided provided m.provides).0 before mw after (ground (arith, ok))
        (same-Fault mw (λ d. sym (step_known provided m before d (ground (arith, ok)))) fault)

  Found : List Capability → Pipeline S → Type 0
  Found provided mws =
      (before : Pipeline S) × (mw : Middleware S) × (after : Pipeline S) × (mws
        ≡ before ++ mw ∷ after)
      × Fault (λ d. after_all provided before d) mw

  head-Fault :
      (provided : List Capability) (mw : Middleware S)
      → (is_nil (check_dependencies mw.name provided mw.dependencies) ≡ false)
        ⊎ (is_nil (add_provided provided mw.provides).1 ≡ false)
      → Fault (λ d. after_all provided [] d) mw
  unfolding has
  head-Fault provided mw (inl missing) =
      let (d, among, no_one) = dependency_missing mw.name provided mw.dependencies missing in
      unmet d among (ground (arith, no_one))
  head-Fault provided mw (inr double) =
      let (before, c, after, split, there) = provided_twice provided mw.provides double in
      twice before c after split (ground (arith, there))

  reject_from :
      (provided : List Capability) (mws : Pipeline S)
      → is_nil (validate_from provided mws) ≡ false
      → Found provided mws
  unfolding validate_from Found
  reject_from provided [] bad = absurd (ne_true bad refl)
  reject_from provided (mw ∷ mws) bad =
      elim (Bool-cases (is_nil (check_dependencies mw.name provided mw.dependencies))) [
        | inr missing ↦ ([], mw, mws, refl, head-Fault provided mw (inl missing))
        | inl met ↦ elim (Bool-cases (is_nil (add_provided provided mw.provides).1)) [
          | inr double ↦ ([], mw, mws, refl, head-Fault provided mw (inr double))
          | inl once ↦
              let (before, m, after, split, fault) =
                reject_from (add_provided provided mw.provides).0 mws
                  (ground (arith, bad, met, once)) in
              (
                mw ∷ before,
                m,
                after,
                ap (λ z. mw ∷ z) split,
                same-Fault m (λ d. step_known provided mw before d once) fault,
              )
        ]
      ]

  -- `Validate` accepts a pipeline only if no middleware in it is at fault: each dependency is
  -- provided by a middleware before it, and no capability is provided twice.
  pub validate_accepts :
      (before : Pipeline S) (mw : Middleware S) (after : Pipeline S)
      → validate (before ++ mw ∷ after) ≡ nil
      → ¬ Fault (λ d. has d (offered before)) mw
  unfolding validate has
  validate_accepts before mw after ok = accept_from [] before mw after (ap is_nil ok)

  -- `Validate` rejects a pipeline only if some middleware in it is at fault.
  pub validate_rejects :
      (mws : Pipeline S)
      → is_nil (validate mws) ≡ false
      → (before : Pipeline S) × (mw : Middleware S) × (after : Pipeline S) × (mws
          ≡ before ++ mw ∷ after)
        × Fault (λ d. has d (offered before)) mw
  unfolding validate Found has
  validate_rejects mws bad = reject_from [] mws bad

  -- `Validate` gives an error for exactly the pipelines in which some middleware is at fault: a
  -- dependency of it is provided by no middleware before it, or a capability that it provides is
  -- provided by one of these or by itself already.
  pub validate-Fault :
      (mws : Pipeline S)
      → (is_nil (validate mws) ≡ false) ↔ (
          (before : Pipeline S) × (mw : Middleware S) × (after : Pipeline S) × (mws
            ≡ before ++ mw ∷ after)
          × Fault (λ d. has d (offered before)) mw)
  validate-Fault mws = (
    validate_rejects mws,
    λ (before, mw, after, split, fault). elim (nil_cases (validate mws)) [
      | inr (bad, some_err) ↦ bad
      | inl (fine, no_err) ↦
          absurd (validate_accepts before mw after (ap validate (sym split) ∙ no_err) fault)
    ],
  )
