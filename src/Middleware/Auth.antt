-- ===== src/Middleware/Auth.antt =====
-- core/middleware/auth.go. The verifier of tokens comes from outside the repository.
pub mod Gate
pub mod Remote
use chukrun.Base.{
  String, Bool, true, false, not, ◌&&◌, List, [], ◌∷◌, Option, none, some, str_eq, if◌then◌else◌,
}
use chukrun.Base.Dict.{Dict, lookup}
use chukrun.Base.Text.{◌<>◌}
use chukrun.Context.Layers.{Ctx, with_user}
use chukrun.Context.Priority.{critical}
use chukrun.Errors.{GoError, nil, is_nil, error_text}
use chukrun.Execution.Types.{ExecutionRequest}
use chukrun.Middleware.Types.{Middleware, Handler, fail_closed, or_empty_text, metadata_of, refusal}

-- The user, the organization, the claims and the error that a verifier answers.
abbrev pub Verifier : Type 0
Verifier = String → String × String × Dict String × GoError

-- The token of a request.
unfoldable pub auth_token : ExecutionRequest → String
auth_token req =
    let token = or_empty_text (metadata_of req "auth-token") in
    if str_eq token "" then or_empty_text (metadata_of req "Authorization") else token

module _ {S : Type 0} where
  -- `(*AuthenticationMiddleware).Handle`.
  unfoldable pub authenticate : Verifier → Handler S → Handler S
  unfolding auth_token
  authenticate verifier next ctx req s =
      let token = auth_token req in
      let (user_id, org_id, claims, err) = verifier token in
      if str_eq token ""
      then (s, some (refusal req "auth" "missing authentication token" false), nil)
      else if is_nil err
      then next (with_user ctx user_id org_id claims) req s
      else (s, some (refusal req "auth" ("authentication failed: " <> error_text err) false), nil)

  unfoldable pub authentication : Verifier → Middleware S
  authentication verifier = record {
    name = "Authentication";
    dependencies = [];
    provides = "authenticated" ∷ [];
    failure_mode = fail_closed;
    handle = authenticate verifier;
  }

  -- `(*AuthorizationMiddleware).Handle`.
  unfoldable pub authorize : Handler S → Handler S
  authorize next ctx req s = elim ctx.user [
    | none ↦ (s, some (refusal req "auth" "unauthorized: user identity not found" false), nil)
    | some ul ↦
        if str_eq ul.user_id ""
        then (s, some (refusal req "auth" "unauthorized: user identity not found" false), nil)
        else if str_eq req.priority critical
            && not (str_eq (or_empty_text (lookup "role" ul.claims)) "admin")
        then (
          s,
          some (
              refusal req "auth" "unauthorized: critical priority class requires admin privileges"
                false),
          nil,
        )
        else next ctx req s
  ]

  unfoldable pub authorization : Middleware S
  authorization = record {
    name = "Authorization";
    dependencies = "authenticated" ∷ [];
    provides = "authorized" ∷ [];
    failure_mode = fail_closed;
    handle = authorize;
  }
