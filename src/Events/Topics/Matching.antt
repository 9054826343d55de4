-- ===== src/Events/Topics/Matching.antt =====
-- What the patterns of subscribers match, and which topics may be published.
use chukrun.Base.{
  ◌≡◌, refl, sym, ap, subst, ◌≢◌, ◌↔◌, ◌⊎◌, inl, inr, String, Bool, true, false, not, ◌&&◌, ◌||◌,
  List, [], ◌∷◌, none, arith, str_eq, eq_iff, eq_refl, Bool-cases, if◌then◌else◌,
}
use chukrun.Base.Dict.{lookup, lookup-insert_self}
use chukrun.Base.Text.{split}
use chukrun.Errors.{nil, plain_error, is_nil}
use chukrun.Events.Topics.{
  TopicRules, match_segments, match_topic, is_canonical, is_core, validate_topic,
  register_namespace, get_namespace, trim_dot,
}

-- A pattern matches a topic, by segments: `**` matches what is left of the topic, also nothing, and
-- what is left of the pattern; `*` matches one segment; any other segment matches itself.
pub data Matches : List String → List String → Type 0 where
  both_end : Matches [] []
  any_rest : {ps ts : List String} → Matches ("**" ∷ ps) ts
  any_one : {t : String} {ps ts : List String} → Matches ps ts → Matches ("*" ∷ ps) (t ∷ ts)
  same_one : {t : String} {ps ts : List String} → Matches ps ts → Matches (t ∷ ps) (t ∷ ts)

ne_true : {b : Bool} → b ≡ false → b ≢ true
ne_true e t = cc

deep : {p : String} {ps ts : List String} → str_eq p "**" ≡ true → Matches (p ∷ ps) ts
deep {p} {ps} {ts} e = subst (λ q. Matches (q ∷ ps) ts) (sym ((eq_iff p "**").0 e)) any_rest

match_segments-Matches : (ps ts : List String) → match_segments ps ts ≡ true → Matches ps ts
unfolding match_segments
match_segments-Matches [] [] e = both_end
match_segments-Matches [] (t ∷ ts) e = ground arith
match_segments-Matches (p ∷ ps) [] e = deep e
match_segments-Matches (p ∷ ps) (t ∷ ts) e = elim (Bool-cases (str_eq p "**")) [
  | inl all ↦ deep all
  | inr not_all ↦ elim (Bool-cases (str_eq p "*")) [
    | inl one ↦
        subst (λ q. Matches (q ∷ ps) (t ∷ ts)) (sym ((eq_iff p "*").0 one))
          (any_one (match_segments-Matches ps ts (ground (arith, e, not_all, one))))
    | inr named ↦
        let same : str_eq p t ≡ true = ground (arith, e, not_all, named) in
        subst (λ q. Matches (q ∷ ps) (t ∷ ts)) (sym ((eq_iff p t).0 same))
          (same_one (match_segments-Matches ps ts (ground (arith, e, not_all, named, same))))
  ]
]

Matches-match_segments : {ps ts : List String} → Matches ps ts → match_segments ps ts ≡ true
unfolding match_segments
Matches-match_segments both_end = refl
Matches-match_segments {ts = []} any_rest = refl
Matches-match_segments {ts = t ∷ ts} any_rest = refl
Matches-match_segments (any_one m) = rw (Matches-match_segments m) refl
Matches-match_segments (same_one {t} {ps} {ts} m) =
    rw (match_segments, Matches-match_segments m, eq_refl t) ground arith

or_cases : (a b c : Bool) → (a || (b || c)) ≡ true → (a ≡ true) ⊎ ((b ≡ true) ⊎ (c ≡ true))
or_cases true b c e = inl refl
or_cases false true c e = inr (inl refl)
or_cases false false c e = inr (inr e)

or_third : (a b c : Bool) → c ≡ true → (a || (b || c)) ≡ true
or_third true b c e = refl
or_third false true c e = refl
or_third false false c e = e

or_second : (a b c : Bool) → b ≡ true → (a || (b || c)) ≡ true
or_second true b c e = refl
or_second false true c e = refl
or_second false false c e = absurd (ne_true refl e)

-- The ways a pattern matches a topic.
abbrev pub MatchesTopic : String → String → Type 0
MatchesTopic pattern topic =
    (pattern ≡ "*") ⊎ ((pattern ≡ topic) ⊎ Matches (split b'.' pattern) (split b'.' topic))

match_topic-MatchesTopic :
    (pattern topic : String) → match_topic pattern topic ≡ true → MatchesTopic pattern topic
unfolding match_topic
match_topic-MatchesTopic pattern topic e =
    elim (or_cases (str_eq pattern "*") (str_eq pattern topic) _ e) [
      | inl all ↦ inl ((eq_iff pattern "*").0 all)
      | inr (inl same) ↦ inr (inl ((eq_iff pattern topic).0 same))
      | inr (inr segments) ↦
          inr (inr (match_segments-Matches (split b'.' pattern) (split b'.' topic) segments))
    ]

MatchesTopic-match_topic :
    (pattern topic : String) → MatchesTopic pattern topic → match_topic pattern topic ≡ true
unfolding match_topic
MatchesTopic-match_topic pattern topic (inl all) = rw ((eq_iff pattern "*").1 all) refl
MatchesTopic-match_topic pattern topic (inr (inl same)) =
    or_second (str_eq pattern "*") (str_eq pattern topic) _ ((eq_iff pattern topic).1 same)
MatchesTopic-match_topic pattern topic (inr (inr m)) =
    or_third (str_eq pattern "*") (str_eq pattern topic) _ (Matches-match_segments m)

-- `matchTopic` accepts exactly these: the pattern `*` with any topic, a topic that is the pattern,
-- and a topic whose segments the segments of the pattern match.
pub match_topic_iff :
    (pattern topic : String) → (match_topic pattern topic ≡ true) ↔ MatchesTopic pattern topic
match_topic_iff pattern topic =
    (match_topic-MatchesTopic pattern topic, MatchesTopic-match_topic pattern topic)

test_iff :
    (b : Bool) (message : String) → ((if b then plain_error message else nil) ≡ nil) ↔ (b ≡ false)
test_iff true message = (λ e. sym (ap is_nil e), λ e. absurd (ne_true e refl))
test_iff false message = (λ e. refl, λ e. refl)

-- `RegisterNamespace` of a name that is free succeeds, and then every topic of that namespace may
-- be published, unless the namespace is one of the core's, the bus is strict and the topic is not a
-- canonical one; a second registration of the name is an error that changes nothing.
pub register_then_validate :
    (prefix owner other topic : String) (rules : TopicRules)
    → lookup (trim_dot prefix) rules.namespaces ≡ none
    → get_namespace topic ≡ trim_dot prefix
    → let (rules', err) = register_namespace prefix owner rules in
      (err ≡ nil)
      × ((validate_topic topic rules' ≡ nil) ↔ (
          (rules.strict_validation && (is_core (trim_dot prefix) && not (is_canonical topic)))
          ≡ false))
      × (register_namespace prefix other rules'
          ≡ (rules', plain_error "namespace already registered"))
unfolding register_namespace validate_topic
register_then_validate prefix owner other topic rules free at =
    rw
      (
        register_namespace,
        free,
        validate_topic,
        at,
        lookup-insert_self (trim_dot prefix) owner rules.namespaces,
      )
      (refl, test_iff _ _, refl)
