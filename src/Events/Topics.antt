-- ===== src/Events/Topics.antt =====
-- The topics of the event bus (core/events/bus.go): namespaces, patterns and the check of a topic.
pub mod Matching
use Prim.Native.Char.{Char, code}
use Prim.Native.String
use chukrun.Base.{
  ℕ, String, Bool, true, false, ◌&&◌, ◌||◌, not, List, [], ◌∷◌, Option, none, some, any, str_eq,
  ◌==◌, if◌then◌else◌,
}
use chukrun.Base.Dict.{Dict, lookup, insert, is_some}
use chukrun.Base.Text.{split}
use chukrun.Errors.{GoError, nil, plain_error}

-- `canonicalTopics`.
abbrev pub canonical_topics : List String
canonical_topics =
    "runtime.starting" ∷ "runtime.ready" ∷ "runtime.state_changed" ∷ "runtime.degraded"
    ∷ "runtime.recovered" ∷ "runtime.failed" ∷ "runtime.restart_requested"
    ∷ "runtime.restart_rejected" ∷ "runtime.shutdown_started" ∷ "runtime.shutdown_completed"
    ∷ "execution.queued" ∷ "execution.started" ∷ "execution.retrying" ∷ "execution.succeeded"
    ∷ "execution.failed" ∷ "execution.cancelled" ∷ "execution.timed_out" ∷ "health.degraded"
    ∷ "health.recovered" ∷ "eventbus.dead_letter" ∷ []

unfoldable pub is_canonical : String → Bool
is_canonical topic = any (λ t. str_eq topic t) canonical_topics

-- The part of the bus that decides on topics.
pub record TopicRules : Type 0 where
  pub namespaces : Dict String
  pub strict_validation : Bool

-- `strings.TrimSuffix(s, ".")`.
unfoldable pub trim_dot : String → String
trim_dot String.[] = ""
trim_dot (String.◌∷◌ c String.[]) = if code c == b'.' then "" else String.◌∷◌ c ""
trim_dot (String.◌∷◌ c (String.◌∷◌ d s)) = String.◌∷◌ c (trim_dot (String.◌∷◌ d s))

-- `RegisterNamespace`.
unfoldable pub register_namespace : String → String → TopicRules → TopicRules × GoError
register_namespace prefix owner rules =
    let name = trim_dot prefix in
    if is_some (lookup name rules.namespaces)
    then (rules, plain_error "namespace already registered")
    else (record rules { namespaces = insert name owner rules.namespaces }, nil)

-- The rules of `NewInProcessEventBus`.
unfoldable pub new_rules : TopicRules
new_rules = record {
  namespaces =
      ("runtime", "core")
      ∷ ("execution", "engine")
      ∷ ("health", "core")
      ∷ ("eventbus", "core")
      ∷ [];
  strict_validation = true;
}

-- `SetStrictMode`.
abbrev pub set_strict_mode : Bool → TopicRules → TopicRules
set_strict_mode strict rules = record rules { strict_validation = strict }

-- `getNamespace`.
unfoldable pub first_part : List String → String
first_part [] = ""
first_part (part ∷ parts) = part

unfoldable pub get_namespace : String → String
unfolding first_part
get_namespace topic = first_part (split b'.' topic)

-- The loop of `matchTopic` over the segments, with the comparison of the lengths after it.
unfoldable pub match_segments : List String → List String → Bool
match_segments [] [] = true
match_segments [] (t ∷ ts) = false
match_segments (p ∷ ps) [] = str_eq p "**"
match_segments (p ∷ ps) (t ∷ ts) =
    let rest = match_segments ps ts in
    if str_eq p "**"
    then true
    else if str_eq p "*"
    then rest
    else if str_eq p t
    then rest
    else false

-- `matchTopic`.
unfoldable pub match_topic : String → String → Bool
unfolding match_segments
match_topic pattern topic =
    str_eq pattern "*"
    || (str_eq pattern topic || match_segments (split b'.' pattern) (split b'.' topic))

abbrev pub is_core : String → Bool
is_core ns =
    str_eq ns "runtime" || (str_eq ns "execution" || (str_eq ns "health" || str_eq ns "eventbus"))

-- `validateTopic`.
unfoldable pub validate_topic : String → TopicRules → GoError
unfolding get_namespace
validate_topic topic rules =
    let ns = get_namespace topic in
    if not (is_some (lookup ns rules.namespaces))
    then plain_error "unknown topic or unregistered namespace"
    else if rules.strict_validation && (is_core ns && not (is_canonical topic))
    then plain_error "unknown topic or unregistered namespace"
    else nil
