-- ===== src/Config/Validity.antt =====
-- What a checked configuration is (core/config/manager.go).
use chukrun.Base.{
  ℕ, suc, ◌≡◌, ◌⊎◌, inl, inr, refl, ◌↔◌, ◌≢◌, String, Bool, true, false, not, ◌&&◌, List, [], ◌∷◌,
  ◌++◌, All, arith, str_eq,
}
use chukrun.Base.Int.{ℤ, pos, ◌≤ℤ◌, leb_ℤ, ltb_ℤ}
use chukrun.Base.Dict.{ne_of_str_eq, str_eq_of_ne}
use chukrun.Errors.{nil}
use chukrun.Config.{
  ProviderConfig, ConfigData, Machine, complain, is_valid_level, validate_runtime,
  validate_lifecycle, validate_each, validate_providers, validate_debug_mode, report, validate,
}

-- A provider has a name and a type, and no placeholder of a secret is left in its key.
abbrev pub IsProvider : Machine → ProviderConfig → Type 0
IsProvider m p = (p.name ≢ "") × (p.kind ≢ "") × (m.match_secret p.api_key ≡ false)

abbrev pub IsRuntime : Machine → ConfigData → Type 0
IsRuntime m c =
    let rt = c.runtime in
    (is_valid_level m (m.to_lower rt.log_level) ≡ true)
    × (pos 1 ≤ℤ rt.startup_timeout_ms)
    × (pos 1 ≤ℤ rt.shutdown_timeout_ms)
    × (pos 1 ≤ℤ rt.concurrency.global_limit)
    × (pos 0 ≤ℤ rt.concurrency.queue_size)

-- Debug mode in production is acknowledged.
abbrev pub IsAcknowledged : Machine → ConfigData → Type 0
IsAcknowledged m c =
    (c.debug_mode ≡ false)
    ⊎ ((m.to_lower c.runtime.environment ≢ "production")
        ⊎ (c.debug_mode_acknowledge_production_risk ≡ true))

abbrev pub IsConfig : Machine → ConfigData → Type 0
IsConfig m c =
    IsRuntime m c
    × (pos 1 ≤ℤ c.lifecycle.restart_cooldown_ms)
    × All (IsProvider m) c.providers
    × IsAcknowledged m c

append-nil : {A : Type 0} (xs ys : List A) → (xs ++ ys ≡ []) ↔ ((xs ≡ []) × (ys ≡ []))
append-nil [] ys = (λ e. (refl, e), λ h. h.1)
append-nil (x ∷ xs) ys = (λ e. cc, λ h. cc)

complain-nil : (m : Machine) (b : Bool) (s : String) → (complain m b s ≡ []) ↔ (b ≡ false)
complain-nil m true s = (λ e. cc, λ e. cc)
complain-nil m false s = (λ e. refl, λ e. refl)

positive : (n : ℤ) → (leb_ℤ n (pos 0) ≡ false) ↔ (pos 1 ≤ℤ n)
positive n = (λ e. ground arith, λ h. ground arith)

not_negative : (n : ℤ) → (ltb_ℤ n (pos 0) ≡ false) ↔ (pos 0 ≤ℤ n)
not_negative n = (λ e. ground arith, λ h. ground arith)

not-false : (b : Bool) → (not b ≡ false) ↔ (b ≡ true)
not-false true = (λ e. refl, λ e. refl)
not-false false = (λ e. cc, λ e. cc)

-- One error less in front of the rest.
complain-append :
    (m : Machine) (b : Bool) (s : String) (errs : List String) {P Q : Type 0}
    → (b ≡ false) ↔ P
    → (errs ≡ []) ↔ Q
    → (complain m b s ++ errs ≡ []) ↔ (P × Q)
complain-append m b s errs p q = (
  λ e.
      let (here, there) = (append-nil (complain m b s) errs).0 e in
      (p.0 ((complain-nil m b s).0 here), q.0 there),
  λ h. (append-nil (complain m b s) errs).1 ((complain-nil m b s).1 (p.1 h.0), q.1 h.1),
)

text_given : (s : String) → (str_eq s "" ≡ false) ↔ (s ≢ "")
text_given s = (ne_of_str_eq s "", str_eq_of_ne s "")

same : {P : Type 0} → P ↔ P
same = (λ h. h, λ h. h)

iff_trans : {P Q R : Type 0} → P ↔ Q → Q ↔ R → P ↔ R
iff_trans p q = (λ h. q.0 (p.0 h), λ h. p.1 (q.1 h))

validate_each-nil :
    (m : Machine) (i : ℕ) (ps : List ProviderConfig)
    → (validate_each m i ps ≡ []) ↔ All (IsProvider m) ps
unfolding validate_each
validate_each-nil m i [] = (λ e. tt, λ h. refl)
validate_each-nil m i (p ∷ rest) =
    let checks = complain-append m (str_eq p.name "") _ _ (text_given p.name) (
      complain-append m (str_eq p.kind "") _ _ (text_given p.kind) (
        complain-append m (m.match_secret p.api_key) _ _ same
          (validate_each-nil m (suc i) rest))) in
    (
      λ e. let (n, (k, (s, h))) = checks.0 e in ((n, k, s), h),
      λ h. checks.1 (h.0.0, (h.0.1, (h.0.2, h.1))),
    )

validate_runtime-nil :
    (m : Machine) (c : ConfigData) → (validate_runtime m c [] ≡ []) ↔ IsRuntime m c
unfolding validate_runtime
validate_runtime-nil m c =
    let rt = c.runtime in
    let checks =
      complain-append m (not (is_valid_level m (m.to_lower rt.log_level))) _ _ (not-false _) (
        complain-append m (leb_ℤ rt.startup_timeout_ms (pos 0)) _ _ (positive _) (
          complain-append m (leb_ℤ rt.shutdown_timeout_ms (pos 0)) _ _ (positive _) (
            complain-append m (leb_ℤ rt.concurrency.global_limit (pos 0)) _ _ (positive _) (
              iff_trans (complain-nil m (ltb_ℤ rt.concurrency.queue_size (pos 0)) _)
                (not_negative _))))) in
    (
      λ e. let (l, (s, (d, (g, q)))) = checks.0 e in (l, s, d, g, q),
      λ h. checks.1 (h.0, (h.1, (h.2, (h.3, h.4)))),
    )

acknowledged :
    (debug production ack : Bool)
    → ((debug && (production && not ack)) ≡ false)
      ↔ ((debug ≡ false) ⊎ ((production ≡ false) ⊎ (ack ≡ true)))
acknowledged true true true = (λ e. inr (inr refl), λ h. refl)
acknowledged true true false =
    (λ e. cc, λ h. elim h [ inl d ↦ cc | inr (inl p) ↦ cc | inr (inr a) ↦ cc ])
acknowledged true false ack = (λ e. inr (inl refl), λ h. refl)
acknowledged false production ack = (λ e. inl refl, λ h. refl)

IsAcknowledged-iff :
    (m : Machine) (c : ConfigData)
    → ((c.debug_mode
          && (str_eq (m.to_lower c.runtime.environment) "production"
              && not c.debug_mode_acknowledge_production_risk))
        ≡ false)
      ↔ IsAcknowledged m c
IsAcknowledged-iff m c =
    let env = m.to_lower c.runtime.environment in
    let checks =
      acknowledged c.debug_mode (str_eq env "production")
        c.debug_mode_acknowledge_production_risk in
    (
      λ e. elim (checks.0 e) [
        | inl off ↦ inl off
        | inr (inl other) ↦ inr (inl (ne_of_str_eq env "production" other))
        | inr (inr ack) ↦ inr (inr ack)
      ],
      λ h. checks.1 (elim h [
        | inl off ↦ inl off
        | inr (inl other) ↦ inr (inl (str_eq_of_ne env "production" other))
        | inr (inr ack) ↦ inr (inr ack)
      ]),
    )

report-nil : (m : Machine) (errs : List String) → (report m errs ≡ nil) ↔ (errs ≡ [])
report-nil m [] = (λ e. refl, λ e. refl)
report-nil m (e ∷ errs) = (λ h. cc, λ h. cc)

-- The check of a configuration gives no error for exactly these configurations: the log level, in
-- lower case, is one of the five, both timeouts, the global limit and the restart cooldown are
-- positive, the queue size is not negative, every provider has a name, a type and a key with no
-- placeholder of a secret left, and debug mode in production is acknowledged.
pub validate_iff : (m : Machine) (c : ConfigData) → (validate m c ≡ nil) ↔ IsConfig m c
unfolding validate validate_lifecycle validate_providers validate_debug_mode
validate_iff m c =
    let runtime = validate_runtime m c [] in
    let cooldown = complain-nil m (leb_ℤ c.lifecycle.restart_cooldown_ms (pos 0)) _ in
    let debug = complain-nil m _ _ in
    (
      λ e.
          let (front, ack) = (append-nil _ _).0 ((report-nil m _).0 e) in
          let (front2, providers) = (append-nil _ _).0 front in
          let (front3, cool) = (append-nil _ _).0 front2 in
          (
            (validate_runtime-nil m c).0 front3,
            (positive _).0 (cooldown.0 cool),
            (validate_each-nil m 0 c.providers).0 providers,
            (IsAcknowledged-iff m c).0 (debug.0 ack),
          ),
      λ h. (report-nil m _).1 (
          (append-nil _ _).1 (
            (append-nil _ _).1 (
              (append-nil _ _).1
                  ((validate_runtime-nil m c).1 h.0, cooldown.1 ((positive _).1 h.1)),
              (validate_each-nil m 0 c.providers).1 h.2,
            ),
            debug.1 ((IsAcknowledged-iff m c).1 h.3),
          )),
    )
