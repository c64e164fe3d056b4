-- ===== src/Subagents/Kept.antt =====
-- The registry of background subagents under every sequence of its calls (executor.py).
use deer_seek_backend.Prelude.{
  ℕ, ◌≡◌, ◌∙◌, refl, sym, ap, arith, String, true, false, Option, none, some, List, [], Eq, ◌==◌,
  string_eq, if◌then◌else◌, Bool-cases, Option-cases, inl, inr, eq_iff,
}
use deer_seek_backend.Dict.{get, has}
use deer_seek_backend.Dict.Laws.{get-put, get-pop, has-put, has-pop}
use deer_seek_backend.Subagents.{
  Status, pending, timed_out, failed, cancelled, completed, is_terminal, Result, Update, no_update,
  write_terminal, try_set_terminal, set_terminal, given,
}
use deer_seek_backend.Subagents.Worker.{
  AiMessage, Message, Item, chunk, ended, raised, worker_step, cancelled_by_user, completion,
  failure,
}
use deer_seek_backend.Subagents.Tasks.{
  Tasks, is_set, new_result, change, execute_async, started, start_task, time_out, fail,
  cancel_requested, request_cancel_background_task, cleanup_known, cleanup_background_task,
}

module _ {M U : Type 0} where
  -- A result has its time of completion exactly if its status is terminal.
  abbrev pub IsStamped : Result M U → Type 0
  IsStamped r = is_set r.completed_at ≡ is_terminal r.status

  abbrev pub AllStamped : Tasks M U → Type 0
  AllStamped tasks = (i : String) (r : Result M U) → get tasks i ≡ some r → IsStamped r

  set_terminal-IsStamped :
      (now : ℕ) (s : Status) (u : Update M U) (r : Result M U)
      → IsStamped r
      → IsStamped (set_terminal now s u r)
  unfolding set_terminal try_set_terminal write_terminal is_set given
  set_terminal-IsStamped now s u r h = ground arith

  get-change :
      (i j : String) (f : Result M U → Result M U) (tasks : Tasks M U) (r : Result M U)
      → get tasks i ≡ some r
      → get (change i f tasks) j ≡ (if i == j then some (f r) else get tasks j)
  unfolding change
  get-change i j f tasks r found = rw (change, found) (get-put tasks i j (f r))

  change_missing :
      (i : String) (f : Result M U → Result M U) (tasks : Tasks M U)
      → get tasks i ≡ none
      → change i f tasks ≡ tasks
  unfolding change
  change_missing i f tasks missing = rw (change, missing) refl

  change-AllStamped :
      (i : String) (f : Result M U → Result M U) (tasks : Tasks M U)
      → ((r : Result M U) → get tasks i ≡ some r → IsStamped r → IsStamped (f r))
      → AllStamped tasks
      → AllStamped (change i f tasks)
  change-AllStamped i f tasks keeps all j s found = elim (Option-cases (get tasks i)) [
    | inl missing ↦ all j s (sym (ap (λ m. get m j) (change_missing i f tasks missing)) ∙ found)
    | inr (r, here) ↦
        let got = sym (get-change i j f tasks r here) ∙ found in
        elim (Bool-cases (i == j)) [
          | inl same ↦
              let stamped = keeps r here (all i r here) in
              let new : some (f r) ≡ some s =
                sym (ap (λ b. if b then some (f r) else get tasks j) same) ∙ got in
              let eq : f r ≡ s = ground arith in rw (sym eq) stamped
          | inr other ↦ all j s (sym (ap (λ b. if b then some (f r) else get tasks j) other) ∙ got)
        ]
  ]

module _ {J U : Type 0} ⦃e : Eq (AiMessage J)⦄ where
  abbrev pub worked :
      ℕ → Item J U → Option (List (Message J)) → Result (AiMessage J) U → Result (AiMessage J) U
  worked now item final r = (worker_step now item final r).1

  -- What happens to the registry: a submission under a new id, the start of a pending task, a step
  -- of a worker, a timeout, a failure, a request to cancel, and a cleanup.
  pub data Step (tasks : Tasks (AiMessage J) U) : Tasks (AiMessage J) U → Type 0 where
    submits : (i : String) → has tasks i ≡ false → Step tasks (execute_async i tasks)
    starts :
        (now : ℕ) (i : String) (r : Result (AiMessage J) U)
        → get tasks i ≡ some r
        → r.status ≡ pending
        → Step tasks (start_task now i tasks)
    works :
        (now : ℕ) (i : String) (item : Item J U) (final : Option (List (Message J)))
        → Step tasks (change i (worked now item final) tasks)
    times_out : (now : ℕ) (i message : String) → Step tasks (change i (time_out now message) tasks)
    fails : (now : ℕ) (i error : String) → Step tasks (change i (fail now error) tasks)
    cancels : (i : String) → Step tasks (request_cancel_background_task i tasks)
    cleans : (i : String) → Step tasks (cleanup_background_task i tasks)

  pub data Reach : Tasks (AiMessage J) U → Type 0 where
    start : Reach []
    next : {u v : Tasks (AiMessage J) U} → Reach u → Step u v → Reach v

  worked-IsStamped :
      (now : ℕ) (item : Item J U) (final : Option (List (Message J))) (r : Result (AiMessage J) U)
      → IsStamped r
      → IsStamped (worked now item final r)
  unfolding worker_step
  worked-IsStamped now (chunk ms usage) final r h = elim (Bool-cases r.cancel_event) [
    | inl stop ↦ rw stop (
        set_terminal-IsStamped now cancelled (cancelled_by_user usage)
          (record r { cancel_event = true }) h)
    | inr on ↦ rw on h
  ]
  worked-IsStamped now (ended usage) final r h =
      set_terminal-IsStamped now completed (completion final usage) r h
  worked-IsStamped now (raised error usage) final r h =
      set_terminal-IsStamped now failed (failure error usage) r h

  -- A cleanup leaves a registry as it is, or drops the one task, which was terminal.
  cleanup-get :
      (i j : String) (tasks : Tasks (AiMessage J) U) (r : Result (AiMessage J) U)
      → get (cleanup_background_task i tasks) j ≡ some r
      → get tasks j ≡ some r
  unfolding cleanup_background_task cleanup_known
  cleanup-get i j tasks r found = elim (Option-cases (get tasks i)) [
    | inl missing ↦ ground arith
    | inr (r0, here) ↦ ground (arith, get-pop tasks i j)
  ]

  Step-AllStamped : {u v : Tasks (AiMessage J) U} → Step u v → AllStamped u → AllStamped v
  unfolding execute_async start_task time_out fail request_cancel_background_task is_set is_terminal
  Step-AllStamped {u} (submits i new) all = λ j r found. elim (Bool-cases (i == j)) [
    | inl same ↦ ground (arith, get-put u i j new_result)
    | inr other ↦ ground (arith, get-put u i j new_result, all j r)
  ]
  Step-AllStamped {u} (starts now i r0 here early) all =
      change-AllStamped i (started now) u (λ q there h. ground (arith, there, here, h)) all
  Step-AllStamped {u} (works now i item final) all =
      change-AllStamped i (worked now item final) u (λ r _ h. worked-IsStamped now item final r h)
        all
  Step-AllStamped {u} (times_out now i message) all =
      change-AllStamped i (time_out now message) u
        (λ r _ h.
          set_terminal-IsStamped now timed_out (record no_update { error = some message })
            (cancel_requested r) h)
        all
  Step-AllStamped {u} (fails now i error) all =
      change-AllStamped i (fail now error) u
        (λ r _ h. set_terminal-IsStamped now failed (record no_update { error = some error }) r h)
        all
  Step-AllStamped {u} (cancels i) all = change-AllStamped i cancel_requested u (λ r _ h. h) all
  Step-AllStamped {u} (cleans i) all = λ j r found. all j r (cleanup-get i j u r found)

  -- In every registry that the calls reach, a result has a time of completion exactly if its status
  -- is terminal.
  Reach-AllStamped : {tasks : Tasks (AiMessage J) U} → Reach tasks → AllStamped tasks
  unfolding get is_set is_terminal
  Reach-AllStamped start = λ j r found. ground arith
  Reach-AllStamped (next reach st) = Step-AllStamped st (Reach-AllStamped reach)

  cleanup_open :
      (i j : String) (tasks : Tasks (AiMessage J) U) (r : Result (AiMessage J) U)
      → AllStamped tasks
      → get tasks j ≡ some r
      → is_terminal r.status ≡ false
      → has (cleanup_background_task i tasks) j ≡ true
  unfolding cleanup_background_task cleanup_known has
  cleanup_open i j tasks r all found open_yet = elim (Option-cases (get tasks i)) [
    | inl missing ↦ ground arith
    | inr (r0, here) ↦ ground (arith, has-pop tasks i j, eq_iff i j, all i r0 here)
  ]

  has-change :
      (i j : String) (f : Result (AiMessage J) U → Result (AiMessage J) U)
      (tasks : Tasks (AiMessage J) U)
      → has (change i f tasks) j ≡ has tasks j
  unfolding change has
  has-change i j f tasks = elim (Option-cases (get tasks i)) [
    | inl missing ↦ rw (change_missing i f tasks missing) refl
    | inr (r, here) ↦ ground (arith, get-put tasks i j (f r), eq_iff i j)
  ]

  has_found :
      (j : String) (r : Result (AiMessage J) U) (tasks : Tasks (AiMessage J) U)
      → get tasks j ≡ some r
      → has tasks j ≡ true
  unfolding has
  has_found j r tasks found = rw (has, found) refl

  kept_by_change :
      (i j : String) (f : Result (AiMessage J) U → Result (AiMessage J) U)
      (tasks : Tasks (AiMessage J) U) (r : Result (AiMessage J) U)
      → get tasks j ≡ some r
      → has (change i f tasks) j ≡ true
  kept_by_change i j f tasks r found = has-change i j f tasks ∙ has_found j r tasks found

  -- No task is lost: in a registry that the calls reach, no call, a cleanup of its own id included,
  -- takes away a task whose status is not terminal.
  pub open_task_kept :
      {u v : Tasks (AiMessage J) U} (i : String) (r : Result (AiMessage J) U)
      → Reach u
      → Step u v
      → get u i ≡ some r
      → is_terminal r.status ≡ false
      → has v i ≡ true
  unfolding execute_async start_task request_cancel_background_task has
  open_task_kept {u} i r reach (submits k new) found early =
      ground (arith, has-put u k i new_result, has_found i r u found)
  open_task_kept {u} i r reach (starts now k r0 here p) found early =
      kept_by_change k i (started now) u r found
  open_task_kept {u} i r reach (works now k item final) found early =
      kept_by_change k i (worked now item final) u r found
  open_task_kept {u} i r reach (times_out now k m) found early =
      kept_by_change k i (time_out now m) u r found
  open_task_kept {u} i r reach (fails now k m) found early =
      kept_by_change k i (fail now m) u r found
  open_task_kept {u} i r reach (cancels k) found early =
      kept_by_change k i cancel_requested u r found
  open_task_kept {u} i r reach (cleans k) found early =
      cleanup_open k i u r (Reach-AllStamped reach) found early
