-- ===== src/Runs/Manager/Shutdown.antt =====
-- `shutdown` in its two locked parts: runs are asked to stop, and after the drain those that did not
-- settle by themselves are marked as interrupted. The tasks run between the parts.
use deer_seek_backend.Prelude.{
  ℕ, String, Bool, true, false, ◌&&◌, not, Option, none, some, List, [], ◌∷◌, string_eq,
  if◌then◌else◌, keep, take, map,
}
use deer_seek_backend.Dict.{values}
use deer_seek_backend.Runs.Status.{interrupted, is_inflight}
use deer_seek_backend.Runs.Registry.{RunRecord, Registry, Task, cancel_task, modify}
use deer_seek_backend.Runs.Store.{RunStore}
use deer_seek_backend.Runs.Store.Retry.{RetryPolicy}
use deer_seek_backend.Runs.Manager.{Manager, persist_interrupted}

has_open_task : Option Task → Bool
has_open_task none = false
has_open_task (some t) = not t.done

-- How a run's task stands after the drain: still pending at the timeout, ended by its cancellation, or
-- ended by itself.
pub data Drained : Type 0 where
  unsettled cancelled completed : Drained

abbrev pub is_completed : Drained → Bool
is_completed completed = true
is_completed _ = false

module _ {J : Type 0} where
  -- The runs that the shutdown waits for.
  unfoldable pub draining : Registry J → List (RunRecord J)
  unfolding has_open_task
  draining g = keep (λ r. is_inflight r.status && has_open_task r.task) (values g.runs)

  unfoldable pub ask_to_stop : RunRecord J → RunRecord J
  ask_to_stop r = record r {
    abort_action = "interrupt";
    abort_event = true;
    task = cancel_task r.task;
  }

  unfoldable pub modify_all :
      (RunRecord J → RunRecord J) → List (RunRecord J) → Registry J → Registry J
  unfolding modify
  modify_all f [] g = g
  modify_all f (r ∷ rs) g = modify_all f rs (modify f r.run_id g)

  -- The first part: the runs to wait for, and the registry with their tasks cancelled.
  unfoldable pub begin_shutdown : Registry J → List (RunRecord J) × Registry J
  unfolding draining ask_to_stop modify_all
  begin_shutdown g = (map ask_to_stop (draining g), modify_all ask_to_stop (draining g) g)

  unfoldable pub settled : ℕ → RunRecord J → RunRecord J
  settled now r =
      if is_inflight r.status then record r { status = interrupted; updated_at = now } else r

  -- Of the drained runs, as their tasks left them, those that did not complete by themselves.
  abbrev pub stopped : (String → Drained) → List (RunRecord J) → List (RunRecord J)
  stopped outcome = keep (λ r. not (is_completed (outcome r.run_id)))

module _ {J S : Type 0} (ops : RunStore J S) (policy : RetryPolicy) where
  -- The second part. Of the statuses to persist, `in_time` get to the store before the deadline.
  unfoldable pub finish_shutdown :
      ℕ → (String → Drained) → ℕ → List (RunRecord J) → Manager J S → Manager J S
  unfolding settled modify_all persist_interrupted
  finish_shutdown now outcome in_time drained m = record {
    registry = modify_all (settled now) (stopped outcome drained) m.registry;
    store =
        persist_interrupted ops policy (take in_time (map (settled now) (stopped outcome drained)))
          m.store;
  }
