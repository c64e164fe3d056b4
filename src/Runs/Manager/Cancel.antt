-- ===== src/Runs/Manager/Cancel.antt =====
-- `cancel` and `set_status`: the answer by the status of the run, and what is in memory afterwards.
use deer_seek_backend.Prelude.{
  ℕ, String, ◌≡◌, refl, Bool, true, false, none, some, arith, eq_iff, string_eq, Option-cases,
  Bool-cases, inl, inr, Option, not, ◌||◌, ◌==◌, ap, if◌then◌else◌,
}
use deer_seek_backend.Dict.{get}
use deer_seek_backend.Dict.Laws.{get-put}
use deer_seek_backend.Runs.Status.{
  RunStatus, pending, running, success, error, timeout, interrupted, is_inflight, is_interrupted,
}
use deer_seek_backend.Runs.Registry.{RunRecord, Registry, Task, cancel_task, modify, interrupt}
use deer_seek_backend.Runs.Store.{RunStore}
use deer_seek_backend.Runs.Store.Retry.{RetryPolicy}
use deer_seek_backend.Runs.Manager.{Manager, persist_status}
use deer_seek_backend.Runs.Manager.Methods.{cancel}

pub get-modify :
    {J : Type 0} (f : RunRecord J → RunRecord J) (i : String) (g : Registry J) (r : RunRecord J)
    → get g.runs i ≡ some r
    → get (modify f i g).runs i ≡ some (f r)
unfolding modify
get-modify f i g r found = rw (found, modify, get-put g.runs i i (f r)) (ground (arith, eq_iff i i))

-- Whether a task is as it was, but for being asked to cancel if it was there and not done.
abbrev pub Stopped : Option Task → Option Task → Type 0
Stopped none task = task ≡ none
Stopped (some t) task =
    task ≡ some (record t { cancel_requested = not t.done || t.cancel_requested })

-- Whether a record is another after an interruption with an action at a time.
pub record Interrupted {J : Type 0} (action : String) (now : ℕ) (r r' : RunRecord J) : Type 0 where
  pub status : r'.status ≡ interrupted
  pub aborted : r'.abort_event ≡ true
  pub action_set : r'.abort_action ≡ action
  pub touched : r'.updated_at ≡ now
  pub stopped : Stopped r.task r'.task
  pub rest :
      record r' {
        status = r.status;
        abort_event = r.abort_event;
        abort_action = r.abort_action;
        updated_at = r.updated_at;
        task = r.task;
      }
      ≡ r

module _ {J S : Type 0} (ops : RunStore J S) (policy : RetryPolicy) (now : ℕ) (action i : String)
    (m m' : Manager J S) where
  -- The run's record is replaced by an interrupted one, whose status is handed to the store; all other
  -- records and the index stay.
  pub record Interrupts (r r' : RunRecord J) : Type 0 where
    pub marked : Interrupted action now r r'
    pub runs :
        (j : String) → get m'.registry.runs j ≡ (if i == j then some r' else get m.registry.runs j)
    pub index : m'.registry.by_thread ≡ m.registry.by_thread
    pub persisted : m'.store ≡ (persist_status ops policy r' interrupted none m.store).1

  abbrev StatusSpec : RunRecord J → Bool → RunStatus → Type 0
  StatusSpec r answer pending = (answer ≡ true) × (r' : RunRecord J) × Interrupts r r'
  StatusSpec r answer running = (answer ≡ true) × (r' : RunRecord J) × Interrupts r r'
  StatusSpec r answer interrupted = (answer ≡ true) × (m' ≡ m)
  StatusSpec r answer success = (answer ≡ false) × (m' ≡ m)
  StatusSpec r answer error = (answer ≡ false) × (m' ≡ m)
  StatusSpec r answer timeout = (answer ≡ false) × (m' ≡ m)

  -- What a `cancel` with this answer does, by the run's record.
  abbrev pub CancelSpec : Option (RunRecord J) → Bool → Type 0
  CancelSpec none answer = (answer ≡ false) × (m' ≡ m)
  CancelSpec (some r) answer = StatusSpec r answer r.status

not_interrupted : (s : RunStatus) → is_inflight s ≡ true → is_interrupted s ≡ false
not_interrupted pending h = refl
not_interrupted running h = refl
not_interrupted success h = cc
not_interrupted error h = cc
not_interrupted timeout h = cc
not_interrupted interrupted h = cc

module _ {J S : Type 0} (ops : RunStore J S) (policy : RetryPolicy) (now : ℕ) (action i : String)
    (m : Manager J S) where
  pub cancel_missing : get m.registry.runs i ≡ none → cancel ops policy now action i m ≡ (false, m)
  unfolding cancel
  cancel_missing missing = rw (missing, cancel)

  pub cancel_idle :
      (r : RunRecord J)
      → get m.registry.runs i ≡ some r
      → is_inflight r.status ≡ false
      → cancel ops policy now action i m ≡ (is_interrupted r.status, m)
  unfolding cancel
  cancel_idle r found idle = elim (Bool-cases (is_interrupted r.status)) [
    | inl already ↦ rw (found, cancel, already)
    | inr other ↦ rw (found, cancel, other, idle)
  ]

  abbrev pub cancelled : RunRecord J → Manager J S
  cancelled r = record {
    registry = modify (interrupt action now) i m.registry;
    store = (persist_status ops policy (interrupt action now r) interrupted none m.store).1;
  }

  pub cancel_busy :
      (r : RunRecord J)
      → get m.registry.runs i ≡ some r
      → is_inflight r.status ≡ true
      → cancel ops policy now action i m ≡ (true, cancelled r)
  unfolding cancel
  cancel_busy r found busy = rw (found, cancel, not_interrupted r.status busy, busy)

cancel_task-Stopped : (task : Option Task) → Stopped task (cancel_task task)
cancel_task-Stopped none = refl
cancel_task-Stopped (some t) = ground arith

interrupt-Interrupted :
    {J : Type 0} (action : String) (now : ℕ) (r : RunRecord J)
    → Interrupted action now r (interrupt action now r)
unfolding interrupt
interrupt-Interrupted action now r = record {
  status = refl;
  aborted = refl;
  action_set = refl;
  touched = refl;
  stopped = cancel_task-Stopped r.task;
  rest = refl;
}

module _ {J S : Type 0} (ops : RunStore J S) (policy : RetryPolicy) (now : ℕ) (action i : String)
    (m : Manager J S) where
  abbrev after : Bool × Manager J S
  after = cancel ops policy now action i m

  cancelled-Interrupts :
      (r : RunRecord J)
      → get m.registry.runs i ≡ some r
      → Interrupts ops policy now action i m
          (cancelled ops policy now action i m r)
          r
          (interrupt action now r)
  unfolding modify
  cancelled-Interrupts r found = record {
    marked = interrupt-Interrupted action now r;
    runs = λ j. ground (arith, found, get-put m.registry.runs i j (interrupt action now r));
    index = ground (arith, found);
    persisted = refl;
  }

  by_status :
      (r : RunRecord J) (s : RunStatus)
      → r.status ≡ s
      → get m.registry.runs i ≡ some r
      → StatusSpec ops policy now action i m after.1 r after.0 s
  by_status r pending h found =
      rw (cancel_busy ops policy now action i m r found (ap is_inflight h))
        (refl, interrupt action now r, cancelled-Interrupts r found)
  by_status r running h found =
      rw (cancel_busy ops policy now action i m r found (ap is_inflight h))
        (refl, interrupt action now r, cancelled-Interrupts r found)
  by_status r interrupted h found =
      rw (cancel_idle ops policy now action i m r found (ap is_inflight h))
        (ap is_interrupted h, refl)
  by_status r success h found =
      rw (cancel_idle ops policy now action i m r found (ap is_inflight h))
        (ap is_interrupted h, refl)
  by_status r error h found =
      rw (cancel_idle ops policy now action i m r found (ap is_inflight h))
        (ap is_interrupted h, refl)
  by_status r timeout h found =
      rw (cancel_idle ops policy now action i m r found (ap is_inflight h))
        (ap is_interrupted h, refl)

  -- Whatever the store does: `cancel` answers true for a run that is known here and is pending, running
  -- or interrupted, else false. The record of a pending or running run becomes interrupted, with its
  -- abort event set, the action, the time, and its task asked to cancel if it is not done; its other
  -- fields, the other records and the index stay, and the new status is handed to the store. In the
  -- other cases neither the memory nor the store changes.
  pub cancel_lem : CancelSpec ops policy now action i m after.1 (get m.registry.runs i) after.0
  cancel_lem = elim (Option-cases (get m.registry.runs i)) [
    | inl missing ↦ rw (missing, cancel_missing ops policy now action i m missing) (refl, refl)
    | inr (r, found) ↦ rw found (by_status r r.status refl found)
  ]

  -- A second cancel of a run, at any time and with any action, answers as the first and changes
  -- nothing, also in the store.
  pub cancel_twice :
      (later : ℕ) (second : String) → cancel ops policy later second i after.1 ≡ (after.0, after.1)
  unfolding interrupt
  cancel_twice later second = elim (Option-cases (get m.registry.runs i)) [
    | inl missing ↦
        rw (cancel_missing ops policy now action i m missing)
          (cancel_missing ops policy later second i m missing)
    | inr (r, found) ↦ elim (Bool-cases (is_inflight r.status)) [
      | inl busy ↦ rw (cancel_busy ops policy now action i m r found busy) (
          cancel_idle ops policy later second i (cancelled ops policy now action i m r)
            (interrupt action now r) (get-modify (interrupt action now) i m.registry r found) refl)
      | inr idle ↦
          rw (cancel_idle ops policy now action i m r found idle)
            (cancel_idle ops policy later second i m r found idle)
    ]
  ]
