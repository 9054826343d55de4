-- ===== src/Context/Session.antt =====
-- core/context/session.go: the store of sessions. A session's variables are an object that all the
-- contexts of the session share; `vars` holds these objects by address, and none is ever removed.
-- Go ranges over a map in no fixed order, and nothing here depends on it: the entries that are
-- deleted are chosen one by one.
pub mod Sharing
use chukrun.Base.{
  ℕ, String, Bool, true, false, not, List, [], ◌∷◌, ◌++◌, Option, none, some, length, get_elem?,
  modify, if◌then◌else◌,
}
use chukrun.Base.Int.{ℤ, pos, ◌-ℤ◌, ltb_ℤ}
use chukrun.Base.Dict.{Dict, lookup, insert, delete}
use chukrun.Execution.Types.{Value}

pub record SessionEntry : Type 0 where
  pub state : ℕ
  pub last_access : ℤ

pub record SessionStore : Type 0 where
  pub sessions : Dict SessionEntry
  pub expiry : ℤ
  pub vars : List (Dict Value)

-- The store that `GetSessionStore` makes: 30 minutes.
unfoldable pub new_session_store : SessionStore
new_session_store = record { sessions = []; expiry = pos 1800000000000; vars = [] }

-- `now.Sub(entry.lastAccess) > ss.expiry`.
abbrev pub is_expired : ℤ → ℤ → SessionEntry → Bool
is_expired now expiry entry = ltb_ℤ expiry (now -ℤ entry.last_access)

-- The loop that deletes the expired sessions.
unfoldable pub without_expired : ℤ → ℤ → Dict SessionEntry → Dict SessionEntry
without_expired now expiry [] = []
without_expired now expiry ((id, entry) ∷ rest) =
    let kept = without_expired now expiry rest in
    if is_expired now expiry entry then kept else (id, entry) ∷ kept

-- A tick of `startGC`.
unfoldable pub collect : ℤ → SessionStore → SessionStore
collect now ss = record ss { sessions = without_expired now ss.expiry ss.sessions }

-- `GetOrCreate` after the expired sessions went: the entry is found and used, or made.
unfoldable pub use_or_make : ℤ → String → SessionStore → Option SessionEntry → SessionStore × ℕ
use_or_make now id ss (some entry) = (
  record ss { sessions = insert id (record entry { last_access = now }) ss.sessions },
  entry.state,
)
use_or_make now id ss none = (
  record ss {
    sessions = insert id (record { state = length ss.vars; last_access = now }) ss.sessions;
    vars = ss.vars ++ [] ∷ [];
  },
  length ss.vars,
)

-- `GetOrCreate`: the address of the session's variables.
unfoldable pub get_or_create : ℤ → String → SessionStore → SessionStore × ℕ
unfolding collect use_or_make
get_or_create now id ss =
    let ss' = collect now ss in use_or_make now id ss' (lookup id ss'.sessions)

-- `SetExpiry`.
abbrev pub set_expiry : ℤ → SessionStore → SessionStore
set_expiry expiry ss = record ss { expiry = expiry }

abbrev pub or_no_vars : Option (Dict Value) → Dict Value
or_no_vars none = []
or_no_vars (some vars) = vars

-- `Get`, `Set` and `Delete` of a session's variables.
unfoldable pub get_var : ℕ → String → SessionStore → Option Value
get_var state key ss = lookup key (or_no_vars (get_elem? ss.vars state))

unfoldable pub set_var : ℕ → String → Value → SessionStore → SessionStore
set_var state key value ss = record ss { vars = modify state (insert key value) ss.vars }

unfoldable pub delete_var : ℕ → String → SessionStore → SessionStore
delete_var state key ss = record ss { vars = modify state (delete key) ss.vars }
