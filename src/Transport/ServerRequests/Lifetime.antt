-- ===== src/Transport/ServerRequests/Lifetime.antt =====
-- The tasks of the handler over any sequence of messages of the server.
use mcp_server_fuzzer.Prelude.{
  String, ◌≡◌, refl, ◌⊎◌, inl, inr, List, [], ◌∷◌, Option, none, some, arith, eq_iff,
}
use mathlib.Core.Path.{subst}
use mcp_server_fuzzer.Json.{Value, Fields, Items, str, get}
use mcp_server_fuzzer.Json.Laws.{get-put}
use mcp_server_fuzzer.Json.Table.{lookup}
use mcp_server_fuzzer.Transport.ServerRequests.{cancelled_code}
use mcp_server_fuzzer.Transport.ServerRequests.TaskManager.{
  TaskError, TaskRecord, cancelled, copy_key, copy_keys, status_keys, with_status, new_task,
  task_id_of,
}
use mcp_server_fuzzer.Transport.ServerRequests.Handler.{
  Outside, Handler, Outcome, new_handler, handle_request, handle_notification,
}
use mcp_server_fuzzer.Transport.ServerRequests.Steps.{
  Change, kept, created, cancelled_by, noted, handle_request-Change, handle_notification-Change,
}

-- A run of the handler: requests, each with what the code takes from outside, and notifications.
pub data Run (IsAllowed : Outside → Type 0) (start : Handler) : Handler → Type 0 where
  begin : Run IsAllowed start start
  request :
      {h : Handler} (outside : Outside) (payload : Value) (outcome : Outcome)
      → Run IsAllowed start h
      → IsAllowed outside
      → handle_request outside payload h ≡ some outcome
      → Run IsAllowed start outcome.0
  notification :
      {h : Handler} (payload : Value)
      → Run IsAllowed start h
      → Run IsAllowed start (handle_notification payload h).0

-- What every change of a task's record keeps holds after every run.
pub Run-keeps :
    {IsAllowed : Outside → Type 0} {start h : Handler} (task_id : String)
    (P : Option TaskRecord → Type 0)
    → ((New : Type 0) (before after : Option TaskRecord)
        → (New → (outside : Outside) × IsAllowed outside × (task_id ≡ task_id_of outside.uuid))
        → Change New task_id before after
        → P before
        → P after)
    → Run IsAllowed start h
    → P (lookup task_id start.tasks)
    → P (lookup task_id h.tasks)
Run-keeps task_id P keep begin p = p
Run-keeps task_id P keep (request outside payload outcome run allowed e) p =
    keep _ _ _ (λ same. (outside, allowed, same))
      (handle_request-Change outside task_id payload _ e) (Run-keeps task_id P keep run p)
Run-keeps task_id P keep (notification payload run) p =
    keep _ _ _ (λ never. absurd never) (handle_notification-Change task_id payload _)
      (Run-keeps task_id P keep run p)

-- The only error that a task ever has.
abbrev pub cancellation : TaskError
cancellation = record { code = cancelled_code; message = "Task cancelled" }

-- A record that stands under its own task id, with a result, and with no error but a cancellation.
pub record IsSound (task_id : String) (r : TaskRecord) : Type 0 where
  pub own_id : get r.task "taskId" ≡ str task_id
  pub has_result : (result : Fields) × (r.result ≡ some result)
  pub error : (r.error ≡ none) ⊎ (r.error ≡ some cancellation)

abbrev pub SoundIfThere : String → Option TaskRecord → Type 0
SoundIfThere task_id none = Unit
SoundIfThere task_id (some r) = IsSound task_id r

cancelled-IsSound :
    (task_id now : String) (r : TaskRecord) → IsSound task_id r → IsSound task_id (cancelled now r)
unfolding cancelled
cancelled-IsSound task_id now r h = record {
  own_id = simp (get-put, h.own_id);
  has_result = h.has_result;
  error = inr refl;
}

get-copy_keys :
    (task_id : String) (params : Fields) (keys : List String) (task : Fields)
    → get params "taskId" ≡ str task_id
    → get task "taskId" ≡ str task_id
    → get (copy_keys params keys task) "taskId" ≡ str task_id
unfolding copy_keys
get-copy_keys task_id params [] task e h = h
get-copy_keys task_id params (key ∷ keys) task e h =
    get-copy_keys task_id params keys (copy_key params key task) e
      (ground (arith, get-put task key "taskId" (get params key), eq_iff key "taskId"))

Change-IsSound :
    {New : Type 0} (task_id : String) {before after : Option TaskRecord}
    → Change New task_id before after
    → SoundIfThere task_id before
    → SoundIfThere task_id after
unfolding with_status new_task get
Change-IsSound task_id (kept same) h = rw same h
Change-IsSound task_id (created now origin ttl result new e) h =
    rw e (record { own_id = refl; has_result = (result, refl); error = inl refl })
Change-IsSound task_id (cancelled_by now r e f) h =
    rw f (cancelled-IsSound task_id now r (subst (SoundIfThere task_id) e h))
Change-IsSound task_id (noted params r i e f) h =
    let sound = subst (SoundIfThere task_id) e h in
    rw f (record {
      own_id = get-copy_keys task_id params status_keys r.task i sound.own_id;
      has_result = sound.has_result;
      error = sound.error;
    })

-- After any run of a new handler, each task that is stored under an id has that id as its taskId, has
-- a result, and has no error, or the error that it was cancelled.
pub Run-IsSound :
    {IsAllowed : Outside → Type 0} (roots default_roots : Items) {h : Handler} (task_id : String)
    (r : TaskRecord)
    → Run IsAllowed (new_handler roots default_roots) h
    → lookup task_id h.tasks ≡ some r
    → IsSound task_id r
unfolding new_handler lookup
Run-IsSound roots default_roots task_id r run found = subst (SoundIfThere task_id) found (
    Run-keeps task_id (SoundIfThere task_id) (λ _ _ _ _ change. Change-IsSound task_id change) run
      tt)
