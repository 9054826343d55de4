-- ===== src/Runtime/Steps.antt =====
-- The single statements of the runtime's calls (core/runtime.go): a transition that the diagram
-- allows, a failure in BOOTING, and the shutdown of the engine.
use chukrun.Base.{
  ℕ, ◌≡◌, refl, ◌∙◌, ap, ◌⊎◌, inl, inr, String, true, false, Option, none, some, Bool-cases,
}
use chukrun.Lifecycle.{
  State, LifecycleManager, booting, failed, same_state, valid_target, transition,
}
use chukrun.Lifecycle.Graph.{transition-Entered}
use chukrun.Runtime.Defs.{Engine, CoreRuntime, goes_on, panicked}
use chukrun.Runtime.Boot.{move_to, stop_of, stop_engine}

-- The engine after `Shutdown` of it, if there is one.
abbrev pub halted : Option Engine → Option Engine
halted none = none
halted (some e) = some (record e { loop_stopped = true })

abbrev pub closed_channel : String
closed_channel = "close of closed channel"

abbrev pub nil_pointer : String
nil_pointer = "nil pointer dereference"

module _ {P S L T : Type 0} where
  pub moves :
      (now : ℕ) (from to : State) (r : CoreRuntime P S L T)
      → r.lifecycle.state_val ≡ from
      → same_state from to ≡ false
      → valid_target from to ≡ true
      → (lm : LifecycleManager) × (lm.state_val ≡ to)
        × (move_to now to r ≡ goes_on (record r { lifecycle = lm }))
  unfolding move_to
  moves now from to r at away valid =
      let entered = transition-Entered now to r.lifecycle (rw at away) (rw at valid) in
      ((transition now to r.lifecycle).0, entered.0.at, rw entered.1 refl)

  pub fails :
      (now : ℕ) (r : CoreRuntime P S L T)
      → r.lifecycle.state_val ≡ booting
      → (transition now failed r.lifecycle).0.state_val ≡ failed
  unfolding valid_target
  fails now r at =
      let entered = transition-Entered now failed r.lifecycle (rw at refl) (rw at refl) in
      entered.0.at

  stop_of_cases :
      (r : CoreRuntime P S L T) (x : Option Engine)
      → r.execution ≡ x
      → (stop_of r x ≡ goes_on (record r { execution = halted x }))
        ⊎ ((e : Engine) × (x ≡ some e)
            × (e.loop_stopped ≡ true)
            × (stop_of r x ≡ panicked closed_channel r))
  stop_of_cases r none there = inl (ap (λ x. goes_on (record r { execution = x })) there)
  stop_of_cases r (some e) there = elim (Bool-cases e.loop_stopped) [
    | inl over ↦ inr (e, refl, over, rw over refl)
    | inr going ↦ inl (rw going refl)
  ]

  -- The shutdown of the engine halts it, unless its loop was stopped before.
  pub stop_engine_cases :
      (r : CoreRuntime P S L T)
      → (stop_engine r ≡ goes_on (record r { execution = halted r.execution }))
        ⊎ ((e : Engine) × (r.execution ≡ some e)
            × (e.loop_stopped ≡ true)
            × (stop_engine r ≡ panicked closed_channel r))
  unfolding stop_engine
  stop_engine_cases r = stop_of_cases r r.execution refl

  stop_engine_at :
      (r : CoreRuntime P S L T) {x : Option Engine} → r.execution ≡ x → stop_engine r ≡ stop_of r x
  unfolding stop_engine
  stop_engine_at r there = ap (stop_of r) there

  -- The shutdown of an engine whose loop was stopped panics.
  pub stop_halted :
      (r : CoreRuntime P S L T) (e : Engine)
      → r.execution ≡ some e
      → e.loop_stopped ≡ true
      → stop_engine r ≡ panicked closed_channel r
  stop_halted r e there over = stop_engine_at r there ∙ rw over refl

  -- That of an engine whose loop runs stops it.
  pub stop_open :
      (r : CoreRuntime P S L T) (e : Engine)
      → r.execution ≡ some e
      → e.loop_stopped ≡ false
      → stop_engine r ≡ goes_on (record r { execution = some (record e { loop_stopped = true }) })
  stop_open r e there going = stop_engine_at r there ∙ rw going refl
