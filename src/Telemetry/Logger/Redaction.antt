-- ===== src/Telemetry/Logger/Redaction.antt =====
-- What reaches the queue of the logs (core/telemetry/logger.go).
use mathlib.Core.List.{Memᴰ}
use chukrun.Base.{suc, ◌≤◌, ◌<◌, ◌≡◌, ◌⊎◌, String, true, List, [], ◌∷◌, ◌++◌, length}
use chukrun.Context.Layers.{Ctx}
use chukrun.Context.Derive.{is_sensitive_key}
use chukrun.Telemetry.Logger.{Field, text_value, rank, Texts, LogEntry, Logs}

-- A field is secret by its mark, by the name or a part of its key, or by the context.
pub data IsSecret (t : Texts) (ctx : Ctx) (f : Field) : Type 0 where
  by_mark : f.marked_sensitive ≡ true → IsSecret t ctx f
  by_name :
      (name : String)
      → Memᴰ name ("api_key" ∷ "secret" ∷ "password" ∷ "authorization" ∷ [])
      → t.to_lower f.key ≡ name
      → IsSecret t ctx f
  by_key_part : t.contains (t.to_lower f.key) "key" ≡ true → IsSecret t ctx f
  by_secret_part : t.contains (t.to_lower f.key) "secret" ≡ true → IsSecret t ctx f
  by_context : is_sensitive_key ctx f.key ≡ true → IsSecret t ctx f

abbrev key_names : List String
key_names = "api_key" ∷ "secret" ∷ "password" ∷ "authorization" ∷ []

-- A secret field keeps its key alone, and stays marked; every other is left as it is.
abbrev pub Shown : Texts → Ctx → Field → Field → Type 0
Shown t ctx f g =
    (IsSecret t ctx f
      × (g.key ≡ f.key)
      × (g.field_value ≡ text_value "[REDACTED]")
      × (g.marked_sensitive ≡ true))
    ⊎ (¬ IsSecret t ctx f × (g ≡ f))

-- The fields of an entry, one by one, and what they were before.
abbrev pub AllShown : Texts → Ctx → List Field → List Field → Type 0
AllShown t ctx [] [] = Unit {0}
AllShown t ctx (f ∷ fs) (g ∷ gs) = Shown t ctx f g × AllShown t ctx fs gs
AllShown t ctx _ _ = ⊥

-- What becomes of an entry: the level is not active; there is room; the queue is full and the entry
-- is for information only; or it is full and the oldest entry goes for it.
pub data Logged (entry : LogEntry) (logs : Logs) : Logs → Type 0 where
  silent : rank entry.level < rank logs.current_level → Logged entry logs logs
  sent :
      {logs' : Logs}
      → length logs.queue < logs.queue_size
      → logs'.queue ≡ logs.queue ++ entry ∷ []
      → logs'.dropped ≡ logs.dropped
      → Logged entry logs logs'
  left_out :
      {logs' : Logs}
      → rank entry.level < 2
      → length logs.queue ≡ logs.queue_size
      → logs'.queue ≡ logs.queue
      → logs'.dropped ≡ suc logs.dropped
      → Logged entry logs logs'
  in_place :
      {logs' : Logs} (oldest : LogEntry) (rest : List LogEntry)
      → 2 ≤ rank entry.level
      → logs.queue ≡ oldest ∷ rest
      → logs'.queue ≡ rest ++ entry ∷ []
      → logs'.dropped ≡ suc logs.dropped
      → Logged entry logs logs'
