-- ===== src/Middleware/Auth/Gate.antt =====
-- What a request has to show before Authentication and Authorization let it pass.
use chukrun.Base.{
  ◌≡◌, refl, ◌≢◌, ◌⊎◌, inl, inr, String, Bool, true, false, Option, some, str_eq, eq_iff,
  Bool-cases,
}
use chukrun.Base.Dict.{Dict, lookup, ne_of_str_eq}
use chukrun.Context.Layers.{Ctx, with_user, filter_claims, UserLayer}
use chukrun.Context.Priority.{critical}
use chukrun.Errors.{GoError, nil, is_nil, error_text}
use chukrun.Base.Text.{◌<>◌}
use chukrun.Execution.Types.{ExecutionRequest, ExecutionResult}
use chukrun.Middleware.Types.{Handler, or_empty_text, refusal}
use chukrun.Middleware.Auth.{Verifier, auth_token, authenticate, authorize}

-- The request was let through: it has a token that the verifier accepts, the user that the next
-- handler sees is the verifier's, with an id, and a critical request is an administrator's.
pub record Passed {S : Type 0} (verifier : Verifier) (next : Handler S) (ctx : Ctx)
    (req : ExecutionRequest) (s : S) (answer : S × Option ExecutionResult × GoError) : Type 0 where
  pub has_token : auth_token req ≢ ""
  pub accepted : is_nil (verifier (auth_token req)).3 ≡ true
  pub named : (verifier (auth_token req)).0 ≢ ""
  pub privileged :
      str_eq req.priority critical ≡ true
      → or_empty_text (lookup "role" (filter_claims (verifier (auth_token req)).2)) ≡ "admin"
  pub answered :
      answer
      ≡ next
          (with_user ctx
            (verifier (auth_token req)).0
            (verifier (auth_token req)).1
            (verifier (auth_token req)).2)
          req
          s

-- The request was refused: the next handler was not called, and the result is a failure of the
-- category `auth`.
abbrev pub Refused :
    {S : Type 0} → ExecutionRequest → S → S × Option ExecutionResult × GoError → Type 0
Refused req s answer =
    (message : String) × (answer ≡ (s, some (refusal req "auth" message false), nil))

abbrev the_user : String → String → Dict String → UserLayer
the_user id org claims = record { user_id = id; org_id = org; claims = filter_claims claims }

ne_true : {b : Bool} → b ≡ false → b ≢ true
ne_true e t = cc

module _ {S : Type 0} where
  -- Authorization alone, of a context with a user.
  Permitted : Handler S → Ctx → ExecutionRequest → S → UserLayer → Type 0
  Permitted next ctx req s ul =
      (ul.user_id ≢ "")
      × (str_eq req.priority critical ≡ true → or_empty_text (lookup "role" ul.claims) ≡ "admin")
      × (authorize next ctx req s ≡ next ctx req s)

  authorize_cases :
      (next : Handler S) (ctx : Ctx) (req : ExecutionRequest) (s : S) (ul : UserLayer)
      → let known : Ctx = record ctx { user = some ul } in
        Refused req s (authorize next known req s) ⊎ Permitted next known req s ul
  unfolding Permitted authorize
  authorize_cases next ctx req s ul = elim (Bool-cases (str_eq ul.user_id "")) [
    | inl empty ↦ inl ("unauthorized: user identity not found", rw (authorize, empty) refl)
    | inr named ↦ elim (Bool-cases (str_eq req.priority critical)) [
      | inr plain ↦ inr (
        ne_of_str_eq ul.user_id "" named,
        λ c. absurd (ne_true plain c),
        rw (authorize, named, plain) refl,
      )
      | inl urgent ↦ elim (Bool-cases (str_eq (or_empty_text (lookup "role" ul.claims)) "admin")) [
        | inl admin ↦ inr (
          ne_of_str_eq ul.user_id "" named,
          λ c. (eq_iff _ "admin").0 admin,
          rw (authorize, named, urgent, admin) refl,
        )
        | inr other ↦ inl (
          "unauthorized: critical priority class requires admin privileges",
          rw (authorize, named, urgent, other) refl,
        )
      ]
    ]
  ]

  -- Authentication before Authorization. A request is either refused with a failure of the category
  -- `auth`, and the next handler is not called, or it was let through: it has a token that the
  -- verifier accepts, the next handler sees the user of the verifier, who has an id, and a request
  -- of the critical class has the role `admin` among its claims.
  pub gate :
      (verifier : Verifier) (next : Handler S) (ctx : Ctx) (req : ExecutionRequest) (s : S)
      → let answer = authenticate verifier (authorize next) ctx req s in
        Refused req s answer ⊎ Passed verifier next ctx req s answer
  unfolding authenticate Permitted with_user
  gate verifier next ctx req s =
      let token = auth_token req in
      let (id, org, claims, err) = verifier token in
      elim (Bool-cases (str_eq token "")) [
        | inl empty ↦ inl ("missing authentication token", rw (authenticate, empty) refl)
        | inr given ↦ elim (Bool-cases (is_nil err)) [
          | inr invalid ↦
              inl (
                "authentication failed: " <> error_text err,
                rw (authenticate, given, invalid) refl,
              )
          | inl valid ↦
              elim (authorize_cases next (record ctx { compat_user_id = some id }) req s
                (the_user id org claims)) [
                  | inl (m, denied) ↦ inl (m, rw (authenticate, given, valid) denied)
                  | inr (named, role, same) ↦ inr (record {
                    has_token = ne_of_str_eq token "" given;
                    accepted = valid;
                    named = named;
                    privileged = role;
                    answered = rw (authenticate, given, valid) same;
                  })
                ]
        ]
      ]
