-- ===== src/Subagents.antt =====
-- packages/harness/deerflow/subagents/executor.py: the result of a subagent, its worker
-- (Subagents.Worker) and the registry of background tasks (Subagents.Tasks). Times are numbers. `J` is
-- what the code passes on of a message, and `U` a record of token usage.
pub mod Content
pub mod Worker
pub mod Tasks
pub mod Races
pub mod Outcome
pub mod Captures
pub mod Answers
pub mod Kept
use deer_seek_backend.Prelude.{
  ℕ, String, Bool, true, false, not, Option, none, some, List, [], if◌then◌else◌,
}

pub data Status : Type 0 where
  pending running completed failed cancelled timed_out : Status

unfoldable pub is_terminal : Status → Bool
is_terminal pending = false
is_terminal running = false
is_terminal _ = true

-- `M` is a message of the subagent's agent.
pub record Result (M U : Type 0) : Type 0 where
  pub status : Status
  pub result : Option String
  pub error : Option String
  pub started_at : Option ℕ
  pub completed_at : Option ℕ
  pub ai_messages : List M
  pub token_usage_records : List U
  pub cancel_event : Bool

-- The keyword arguments of `try_set_terminal`
pub record Update (M U : Type 0) : Type 0 where
  pub result : Option String
  pub error : Option String
  pub completed_at : Option ℕ
  pub ai_messages : Option (List M)
  pub token_usage_records : Option (List U)

abbrev pub no_update : {M U : Type 0} → Update M U
no_update = record {
  result = none;
  error = none;
  completed_at = none;
  ai_messages = none;
  token_usage_records = none;
}

unfoldable pub given : {A : Type 0} → Option A → A → A
given none a = a
given (some b) a = b

unfoldable pub given_some : {A : Type 0} → Option A → Option A → Option A
given_some none a = a
given_some (some b) a = some b

module _ {M U : Type 0} where
  unfoldable pub write_terminal : ℕ → Status → Update M U → Result M U → Result M U
  unfolding given given_some
  write_terminal now s u r = record r {
    result = given_some u.result r.result;
    error = given_some u.error r.error;
    ai_messages = given u.ai_messages r.ai_messages;
    token_usage_records = given u.token_usage_records r.token_usage_records;
    completed_at = some (given u.completed_at now);
    status = s;
  }

  -- `none` is a `ValueError`, else whether this call set the status.
  unfoldable pub try_set_terminal :
      ℕ → Status → Update M U → Result M U → Option (Bool × Result M U)
  unfolding is_terminal write_terminal
  try_set_terminal now s u r =
      if not (is_terminal s)
      then none
      else if is_terminal r.status
      then some (false, r)
      else some (true, write_terminal now s u r)

  -- A call of `try_set_terminal` of which only the effect is used.
  unfoldable pub set_terminal : ℕ → Status → Update M U → Result M U → Result M U
  unfolding try_set_terminal
  set_terminal now s u r = elim (try_set_terminal now s u r) [ none ↦ r | some (_, r') ↦ r' ]
