-- ===== src/ToolCalls.antt =====
-- packages/harness/deerflow/agents/middlewares/dangling_tool_call_middleware.py: the messages of a
-- conversation, and the tool calls of one of them. A call's arguments and the fields that the
-- middleware does not read are of the type `J`, and `json.loads` is a parameter.
pub mod Patch
pub mod Equality
pub mod Limit
use deer_seek_backend.Prelude.{
  ℕ, String, Bool, true, false, Option, none, some, List, [], ◌∷◌, ◌++◌, ◌==◌, string_eq, take,
  if◌then◌else◌, map,
}
use deer_seek_backend.Dict.{Dict}

-- A value of a call's arguments: a dict, another true value, or `None`, "", 0 and the like.
pub data Args (J : Type 0) : Type 0 where
  object : Dict String J → Args J
  truthy : J → Args J
  falsy : Args J

-- A call of `msg.tool_calls`, or one that is brought into its form.
pub record Call (J : Type 0) : Type 0 where
  pub id : Option String
  pub name : String
  pub args : Dict String J
  pub invalid : Bool
  pub error : Option String

-- The `function` of a provider's call. Arguments that are not a string are absent here.
pub record Function : Type 0 where
  pub name : Option String
  pub arguments : Option String

-- A call of the provider's payload.
pub data RawCall (J : Type 0) : Type 0 where
  not_a_dict : J → RawCall J
  dict : Option String → Option String → Option (Args J) → Option Function → RawCall J

-- A call that the provider's client could not read. An error that is not a string is absent here.
pub data InvalidCall (J : Type 0) : Type 0 where
  not_a_dict : J → InvalidCall J
  dict : Option String → Option String → Option String → InvalidCall J

-- A message of the agent, with the entries of its `additional_kwargs` and `response_metadata` that
-- the code reads. No entry `tool_calls` is the same as an empty one here.
pub record AiMessage (J : Type 0) : Type 0 where
  pub content : J
  pub tool_calls : List (Call J)
  pub raw_tool_calls : List (RawCall J)
  pub invalid_tool_calls : List (InvalidCall J)
  pub function_call : Option J
  pub finish_reason : Option String

pub data ToolContent (J : Type 0) : Type 0 where
  text : String → ToolContent J
  other : J → ToolContent J

pub record ToolMessage (J : Type 0) : Type 0 where
  pub tool_call_id : String
  pub content : ToolContent J
  pub name : Option String
  pub status : String

pub data Message (J : Type 0) : Type 0 where
  tool : ToolMessage J → Message J
  ai : AiMessage J → Message J
  other : J → Message J

-- `a or b`, of optional strings
unfoldable pub or_string : Option String → Option String → Option String
or_string none b = b
or_string (some s) b = if s == "" then b else some s

-- `s or "unknown"`
unfoldable pub or_unknown : Option String → String
unfolding or_string
or_unknown s = elim (or_string s none) [ none ↦ "unknown" | some n ↦ n ]

module _ {J : Type 0} (loads : String → Option (Args J)) where
  -- `args if isinstance(args, dict) else {}`
  unfoldable pub as_dict : Args J → Dict String J
  as_dict (object d) = d
  as_dict _ = []

  unfoldable pub parsed_args : Option String → Dict String J
  unfolding as_dict
  parsed_args none = []
  parsed_args (some s) = elim (loads s) [ none ↦ [] | some a ↦ as_dict a ]

  -- The arguments of a raw call: its own, or if those are not true, the function's.
  unfoldable pub raw_args : Option (Args J) → Option Function → Dict String J
  unfolding parsed_args
  raw_args (some (object (e ∷ d))) f = e ∷ d
  raw_args (some (truthy v)) f = []
  raw_args a none = []
  raw_args a (some f) = parsed_args f.arguments

  unfoldable pub function_name : Option Function → Option String
  function_name none = none
  function_name (some f) = f.name

  unfoldable pub normalize_raw : List (RawCall J) → List (Call J)
  unfolding or_string or_unknown raw_args function_name
  normalize_raw [] = []
  normalize_raw (not_a_dict v ∷ cs) = normalize_raw cs
  normalize_raw (dict id name args function ∷ cs) =
      record {
        id = id;
        name = or_unknown (or_string name (function_name function));
        args = raw_args args function;
        invalid = false;
        error = none;
      }
      ∷ normalize_raw cs

  unfoldable pub normalize_invalid : List (InvalidCall J) → List (Call J)
  unfolding or_unknown
  normalize_invalid [] = []
  normalize_invalid (not_a_dict v ∷ cs) = normalize_invalid cs
  normalize_invalid (dict id name error ∷ cs) =
      record { id = id; name = or_unknown name; args = []; invalid = true; error = error }
      ∷ normalize_invalid cs

  unfoldable pub structured : List (Call J) → List (RawCall J) → List (Call J)
  unfolding normalize_raw
  structured [] raw = normalize_raw raw
  structured (c ∷ cs) raw = c ∷ cs

  unfoldable pub message_tool_calls : AiMessage J → List (Call J)
  unfolding structured normalize_invalid
  message_tool_calls m =
      structured m.tool_calls m.raw_tool_calls ++ normalize_invalid m.invalid_tool_calls
