-- ===== src/Runs/Registry.antt =====
-- The in-memory part of `RunManager` (packages/harness/deerflow/runtime/runs/manager.py): the records,
-- the index of each thread's runs, and the changes that the methods make under `_lock`. A record is
-- one shared object, so a change of it is a change of the entry of its id. `J` is the type of
-- `metadata` and `kwargs`, which the manager passes through; times are numbers in their order.
pub mod Index
pub mod Rollback
pub mod Active
use deer_seek_backend.Prelude.{
  ℕ, String, Bool, true, false, ◌&&◌, not, Option, none, some, List, [], ◌∷◌, ◌++◌, ◌==◌, string_eq,
  if◌then◌else◌, keep, any, contains,
}
use deer_seek_backend.Dict.{Dict, get, get_or, put, pop}
use deer_seek_backend.Runs.Status.{RunStatus, DisconnectMode, interrupted, is_inflight}

-- An `asyncio.Task`: whether it is done, and whether `cancel()` was called while it was not.
pub record Task : Type 0 where
  pub done : Bool
  pub cancel_requested : Bool

-- The counters and messages that a run reports.
pub record Usage : Type 0 where
  pub total_input_tokens : ℕ
  pub total_output_tokens : ℕ
  pub total_tokens : ℕ
  pub llm_call_count : ℕ
  pub lead_agent_tokens : ℕ
  pub subagent_tokens : ℕ
  pub middleware_tokens : ℕ
  pub message_count : ℕ
  pub last_ai_message : Option String
  pub first_human_message : Option String

abbrev pub no_usage : Usage
no_usage = record {
  total_input_tokens = 0;
  total_output_tokens = 0;
  total_tokens = 0;
  llm_call_count = 0;
  lead_agent_tokens = 0;
  subagent_tokens = 0;
  middleware_tokens = 0;
  message_count = 0;
  last_ai_message = none;
  first_human_message = none;
}

pub record RunRecord (J : Type 0) : Type 0 where
  pub run_id : String
  pub thread_id : String
  pub assistant_id : Option String
  pub status : RunStatus
  pub on_disconnect : DisconnectMode
  pub multitask_strategy : String
  pub metadata : J
  pub kwargs : J
  pub user_id : Option String
  pub created_at : ℕ
  pub updated_at : ℕ
  pub task : Option Task
  pub abort_event : Bool
  pub abort_action : String
  pub error : Option String
  pub model_name : Option String
  pub store_only : Bool
  pub usage : Usage

-- `_runs` and `_runs_by_thread`. A bucket of the index is a dict with no values: its keys in order.
pub record Registry (J : Type 0) : Type 0 where
  pub runs : Dict String (RunRecord J)
  pub by_thread : Dict String (List String)

abbrev pub add_id : String → List String → List String
add_id i ids = if contains i ids then ids else ids ++ i ∷ []

abbrev pub drop_id : String → List String → List String
drop_id i = keep (λ j. not (j == i))

abbrev pub cancel_task : Option Task → Option Task
cancel_task none = none
cancel_task (some t) = some (if t.done then t else record t { cancel_requested = true })

module _ {J : Type 0} where
  abbrev pub empty : Registry J
  empty = record { runs = []; by_thread = [] }

  abbrev pub bucket : Registry J → String → List String
  bucket g thread = get_or g.by_thread thread []

  -- `_index_run_locked`
  unfoldable pub index_run : RunRecord J → Registry J → Registry J
  index_run r g = record g {
    by_thread = put g.by_thread r.thread_id (add_id r.run_id (bucket g r.thread_id));
  }

  unindexed : Option (List String) → String → String → Registry J → Registry J
  unindexed none run_id thread g = g
  unindexed (some ids) run_id thread g = elim (drop_id run_id ids) [
    | [] ↦ record g { by_thread = pop g.by_thread thread }
    | i ∷ rest ↦ record g { by_thread = put g.by_thread thread (i ∷ rest) }
  ]

  -- `_unindex_run_locked`: an empty bucket is dropped.
  unfoldable pub unindex_run : String → String → Registry J → Registry J
  unfolding unindexed
  unindex_run run_id thread g = unindexed (get g.by_thread thread) run_id thread g

  pub lookup_all : Dict String (RunRecord J) → List String → List (RunRecord J)
  lookup_all runs [] = []
  lookup_all runs (i ∷ ids) =
      let rest = lookup_all runs ids in elim (get runs i) [ none ↦ rest | some r ↦ r ∷ rest ]

  -- `_thread_records_locked`
  unfoldable pub thread_records : Registry J → String → List (RunRecord J)
  unfolding lookup_all
  thread_records g thread = lookup_all g.runs (bucket g thread)

  -- `self._runs[run_id] = record` and `_index_run_locked(record)`
  unfoldable pub insert : RunRecord J → Registry J → Registry J
  unfolding index_run
  insert r g = index_run r (record g { runs = put g.runs r.run_id r })

  -- `self._runs.pop(run_id, None)` and `_unindex_run_locked(run_id, thread)`
  unfoldable pub remove : String → String → Registry J → Registry J
  unfolding unindex_run
  remove run_id thread g = unindex_run run_id thread (record g { runs = pop g.runs run_id })

  -- `cleanup`, after its delay
  unfoldable pub cleanup : String → Registry J → Registry J
  unfolding remove
  cleanup run_id g = elim (get g.runs run_id) [ none ↦ g | some r ↦ remove run_id r.thread_id g ]

  -- A change of the fields of the object that `_runs` holds under an id.
  unfoldable pub modify : (RunRecord J → RunRecord J) → String → Registry J → Registry J
  modify f run_id g = elim (get g.runs run_id) [
    | none ↦ g
    | some r ↦ record g { runs = put g.runs run_id (f r) }
  ]

  -- The loop bodies of `cancel` and `create_or_reject`: abort, cancel the task, mark as interrupted.
  unfoldable pub interrupt : String → ℕ → RunRecord J → RunRecord J
  interrupt action now r = record r {
    abort_action = action;
    abort_event = true;
    task = cancel_task r.task;
    status = interrupted;
    updated_at = now;
  }

  abbrev pub active : List (RunRecord J) → List (RunRecord J)
  active = keep (λ r. is_inflight r.status)

  unfoldable pub interrupt_all : String → ℕ → List (RunRecord J) → Registry J → Registry J
  unfolding modify interrupt
  interrupt_all action now [] g = g
  interrupt_all action now (r ∷ rs) g =
      interrupt_all action now rs (modify (interrupt action now) r.run_id g)

  -- `has_inflight`
  unfoldable pub has_inflight : Registry J → String → Bool
  unfolding thread_records
  has_inflight g thread = any (λ r. is_inflight r.status) (thread_records g thread)
