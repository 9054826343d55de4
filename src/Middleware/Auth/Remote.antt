-- ===== src/Middleware/Auth/Remote.antt =====
-- Authorization of a context that another process sent (core/middleware/auth.go and
-- core/context/serialization.go).
use chukrun.Base.{◌≡◌, refl, ◌≢◌, String, false, some}
use chukrun.Base.Int.{ℤ}
use chukrun.Context.Layers.{FloatOps}
use chukrun.Context.Proto.{ContextProto, Shared, from_proto}
use chukrun.Context.Proto.Losses.{session_loses_user}
use chukrun.Errors.{nil}
use chukrun.Execution.Types.{ExecutionRequest}
use chukrun.Middleware.Auth.{authorize}
use chukrun.Middleware.Types.{Handler, refusal}

-- Authorization refuses every request whose context was read from a message with a session, also of
-- a user whom the sender had authenticated: the message names the user, but the context that is read
-- has no user layer.
pub remote_session_refused :
    {S : Type 0} (next : Handler S) (f : FloatOps) (now : ℤ) (instance_id version : String)
    (proto : ContextProto) (w : Shared) (req : ExecutionRequest) (s : S)
    → proto.session_id ≢ ""
    → authorize next (from_proto f now instance_id version proto w).1 req s
      ≡ (s, some (refusal req "auth" "unauthorized: user identity not found" false), nil)
unfolding authorize
remote_session_refused next f now instance_id version proto w req s named =
    rw (authorize, session_loses_user f now instance_id version proto w named) refl
