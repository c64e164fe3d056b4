-- ===== src/Runs/Store.antt =====
-- packages/harness/deerflow/runtime/runs/store/base.py: the store of run rows behind `RunManager`.
-- `S` is the store's state with all that decides how its next calls end; a call that raises says
-- whether `_is_retryable_persistence_error` holds of the exception.
pub mod Memory
pub mod Retry
use deer_seek_backend.Prelude.{ℕ, String, Bool, Option, none, some, List}
use deer_seek_backend.Runs.Status.{RunStatus, cancel}
use deer_seek_backend.Runs.Registry.{RunRecord, Usage}

pub record Row (J : Type 0) : Type 0 where
  pub run_id : String
  pub thread_id : String
  pub assistant_id : Option String
  pub user_id : Option String
  pub model_name : Option String
  pub status : RunStatus
  pub multitask_strategy : String
  pub metadata : J
  pub kwargs : J
  pub error : Option String
  pub created_at : ℕ
  pub updated_at : ℕ
  pub usage : Usage

-- The keyword arguments of `put`.
pub record Payload (J : Type 0) : Type 0 where
  pub thread_id : String
  pub assistant_id : Option String
  pub user_id : Option String
  pub model_name : Option String
  pub status : RunStatus
  pub multitask_strategy : String
  pub metadata : J
  pub kwargs : J
  pub error : Option String
  pub created_at : ℕ

-- The keyword arguments of `update_run_completion` and `update_run_progress`, each of which may be
-- left out; `status` is passed beside.
pub record UsageUpdate : Type 0 where
  pub error : Option String
  pub total_input_tokens : Option ℕ
  pub total_output_tokens : Option ℕ
  pub total_tokens : Option ℕ
  pub llm_call_count : Option ℕ
  pub lead_agent_tokens : Option ℕ
  pub subagent_tokens : Option ℕ
  pub middleware_tokens : Option ℕ
  pub message_count : Option ℕ
  pub last_ai_message : Option String
  pub first_human_message : Option String

abbrev pub given {ℓ} : {A : Type ℓ} → Option A → A → A
given none old = old
given (some new) old = new

-- `given` for a field that may be `None` itself
abbrev pub given_some {ℓ} : {A : Type ℓ} → Option A → Option A → Option A
given_some none old = old
given_some (some new) old = some new

-- `for key, value in kwargs.items(): if value is not None: ...`
unfoldable pub apply_usage : UsageUpdate → Usage → Usage
apply_usage k u = record {
  total_input_tokens = given k.total_input_tokens u.total_input_tokens;
  total_output_tokens = given k.total_output_tokens u.total_output_tokens;
  total_tokens = given k.total_tokens u.total_tokens;
  llm_call_count = given k.llm_call_count u.llm_call_count;
  lead_agent_tokens = given k.lead_agent_tokens u.lead_agent_tokens;
  subagent_tokens = given k.subagent_tokens u.subagent_tokens;
  middleware_tokens = given k.middleware_tokens u.middleware_tokens;
  message_count = given k.message_count u.message_count;
  last_ai_message = given_some k.last_ai_message u.last_ai_message;
  first_human_message = given_some k.first_human_message u.first_human_message;
}

-- How a call of the store ends: it returns, or it raises.
pub data Attempt (A : Type 0) : Type 0 where
  done : A → Attempt A
  failed : Bool → Attempt A

abbrev pub Call : Type 0 → Type 0 → Type 0
Call S A = S → Attempt A × S

-- `update_status` and `update_run_completion` return whether a row was there.
pub record RunStore (J S : Type 0) : Type 0 where
  pub put : String → Payload J → Call S (Unit {0})
  pub get : String → Option String → Call S (Option (Row J))
  pub list_by_thread : String → Option String → ℕ → Call S (List (Row J))
  pub update_status : String → RunStatus → Option String → Call S Bool
  pub update_model_name : String → Option String → Call S (Unit {0})
  pub update_run_completion : String → RunStatus → UsageUpdate → Call S Bool
  pub update_run_progress : String → UsageUpdate → Call S (Unit {0})
  pub list_inflight : Option ℕ → Call S (List (Row J))

module _ {J : Type 0} where
  -- `_store_put_payload`
  unfoldable pub store_put_payload : RunRecord J → Option String → Payload J
  store_put_payload r error = record {
    thread_id = r.thread_id;
    assistant_id = r.assistant_id;
    user_id = r.user_id;
    model_name = r.model_name;
    status = r.status;
    multitask_strategy = r.multitask_strategy;
    metadata = r.metadata;
    kwargs = r.kwargs;
    error = given_some error r.error;
    created_at = r.created_at;
  }

  -- `_record_from_store`: rows have no `on_disconnect` column, so that it is `cancel`.
  unfoldable pub record_from_store : Row J → RunRecord J
  record_from_store row = record {
    run_id = row.run_id;
    thread_id = row.thread_id;
    assistant_id = row.assistant_id;
    status = row.status;
    on_disconnect = cancel;
    multitask_strategy = row.multitask_strategy;
    metadata = row.metadata;
    kwargs = row.kwargs;
    user_id = row.user_id;
    created_at = row.created_at;
    updated_at = row.updated_at;
    task = none;
    abort_event = Bool.false;
    abort_action = "interrupt";
    error = row.error;
    model_name = row.model_name;
    store_only = Bool.true;
    usage = row.usage;
  }
