-- ===== src/Subagents/Tasks.antt =====
-- The registry of background subagents (`_background_tasks` of executor.py).
use deer_seek_backend.Prelude.{
  ℕ, String, Bool, true, false, ◌||◌, Option, none, some, [], string_eq, if◌then◌else◌,
}
use deer_seek_backend.Dict.{Dict, get, put, pop}
use deer_seek_backend.Subagents.{
  pending, running, timed_out, failed, is_terminal, Result, no_update, set_terminal,
}

abbrev pub Tasks : Type 0 → Type 0 → Type 0
Tasks M U = Dict String (Result M U)

unfoldable pub is_set : Option ℕ → Bool
is_set none = false
is_set (some t) = true

module _ {M U : Type 0} where
  abbrev pub new_result : Result M U
  new_result = record {
    status = pending;
    result = none;
    error = none;
    started_at = none;
    completed_at = none;
    ai_messages = [];
    token_usage_records = [];
    cancel_event = false;
  }

  unfoldable pub change : String → (Result M U → Result M U) → Tasks M U → Tasks M U
  change task_id f tasks = elim (get tasks task_id) [
    | none ↦ tasks
    | some r ↦ put tasks task_id (f r)
  ]

  -- `execute_async`, up to the work of the scheduler's thread
  unfoldable pub execute_async : String → Tasks M U → Tasks M U
  execute_async task_id tasks = put tasks task_id new_result

  abbrev pub started : ℕ → Result M U → Result M U
  started now r = record r { status = running; started_at = some now }

  -- The start of `run_task`
  unfoldable pub start_task : ℕ → String → Tasks M U → Tasks M U
  unfolding change
  start_task now task_id = change task_id (started now)

  -- What `run_task` does when its wait for the worker times out, and when it raises
  unfoldable pub time_out : ℕ → String → Result M U → Result M U
  unfolding set_terminal
  time_out now message r =
      set_terminal now timed_out (record no_update { error = some message })
        (record r { cancel_event = true })

  unfoldable pub fail : ℕ → String → Result M U → Result M U
  unfolding set_terminal
  fail now error r = set_terminal now failed (record no_update { error = some error }) r

  abbrev pub cancel_requested : Result M U → Result M U
  cancel_requested r = record r { cancel_event = true }

  unfoldable pub request_cancel_background_task : String → Tasks M U → Tasks M U
  unfolding change
  request_cancel_background_task task_id = change task_id cancel_requested

  unfoldable pub cleanup_known : Option (Result M U) → String → Tasks M U → Tasks M U
  unfolding is_terminal is_set
  cleanup_known none task_id tasks = tasks
  cleanup_known (some r) task_id tasks =
      if is_terminal r.status || is_set r.completed_at then pop tasks task_id else tasks

  unfoldable pub cleanup_background_task : String → Tasks M U → Tasks M U
  unfolding cleanup_known
  cleanup_background_task task_id tasks = cleanup_known (get tasks task_id) task_id tasks
