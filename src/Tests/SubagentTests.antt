-- ===== src/Tests/SubagentTests.antt =====
-- Runs of packages/harness/deerflow/subagents/executor.py. What the code passes on of a message is
-- text, and so is a record of token usage.
use deer_seek_backend.Prelude.{
  ◌≡◌, refl, String, true, false, Option, none, some, List, [], ◌∷◌, ◌++◌, Eq, string_eq, option_eq,
  pair_eq, ◌⊎◌, inl, inr,
}
use deer_seek_backend.ToolCalls.Equality.{by_code, list_eq, sum_eq}
use deer_seek_backend.Dict.{get, has, put}
use deer_seek_backend.Subagents.{
  is_terminal, Result, try_set_terminal, write_terminal, set_terminal, given, given_some,
}
use deer_seek_backend.Subagents.Content.{
  Block, dict, neither, Content, text, blocks, value, content_text, or_no_text, collect, flushed,
  dict_text, join_lines, concat,
}
use deer_seek_backend.Subagents.Worker.{AiMessage, Message, ai, other, ended, streaming, execute}
use deer_seek_backend.Subagents.Tasks.{
  Tasks, new_result, execute_async, time_out, cleanup_background_task,
}
use deer_seek_backend.Subagents.Races.{
  World, after_work, Frozen, here, next, works, first_terminal_wins,
}
use deer_seek_backend.Subagents.Outcome.{chunks_of}
use deer_seek_backend.Subagents.Answers.{Completes, execute-Completes}
use deer_seek_backend.Subagents.Kept.{submits, cleans, open_task_kept}
use deer_seek_backend.Subagents.Kept

abbrev block_code : Block → String ⊎ (Option String ⊎ String)
block_code (Block.chunk s) = inl s
block_code (dict t) = inr (inl t)
block_code neither = inr (inr "")

abbrev read_block : String ⊎ (Option String ⊎ String) → Block
read_block (inl s) = Block.chunk s
read_block (inr (inl t)) = dict t
read_block (inr (inr s)) = neither

block_back : (b : Block) → read_block (block_code b) ≡ b
block_back (Block.chunk s) = refl
block_back (dict t) = refl
block_back neither = refl

instance abbrev block_eq : Eq Block
block_eq = by_code block_code read_block block_back

abbrev content_code : Content → String ⊎ (List Block ⊎ String)
content_code (text s) = inl s
content_code (blocks bs) = inr (inl bs)
content_code (value s) = inr (inr s)

abbrev read_content : String ⊎ (List Block ⊎ String) → Content
read_content (inl s) = text s
read_content (inr (inl bs)) = blocks bs
read_content (inr (inr s)) = value s

content_back : (c : Content) → read_content (content_code c) ≡ c
content_back (text s) = refl
content_back (blocks bs) = refl
content_back (value s) = refl

instance abbrev content_eq : Eq Content
content_eq = by_code content_code read_content content_back

instance abbrev message_eq : Eq (AiMessage String)
message_eq =
    by_code {B = Option String × (Content × String)} (λ m. (m.id, (m.content, m.body)))
      (λ c. record { id = c.0; content = c.1.0; body = c.1.1 }) (λ m. refl)

abbrev answer : AiMessage String
answer = record {
  id = some "m";
  content = blocks (Block.chunk "Do" ∷ Block.chunk "ne" ∷ dict (some "twice") ∷ []);
  body = "body";
}

two_lines : content_text answer.content ≡ "Done\ntwice"
unfolding content_text collect or_no_text flushed dict_text join_lines concat
two_lines = refl

abbrev new_task : Result (AiMessage String) String
new_task = new_result

abbrev timed : Result (AiMessage String) String
timed = time_out 9 "Execution timed out" new_task

-- The worker brings the end of its stream after the timeout.
abbrev beginning : World String String
beginning = record { phase = streaming (some (ai answer ∷ [])); result = timed }

timed_terminal : is_terminal timed.status ≡ true
unfolding time_out set_terminal try_set_terminal write_terminal is_terminal given given_some
timed_terminal = refl

open_yet : is_terminal new_task.status ≡ false
unfolding is_terminal
open_yet = refl

first_terminal_wins_example :
    Frozen timed (after_work 10 (ended ("usage" ∷ [])) (some (ai answer ∷ [])) beginning).result
first_terminal_wins_example =
    first_terminal_wins (next here (works 10 (ended ("usage" ∷ [])) (some (ai answer ∷ [])) refl))
      timed_terminal

-- The stream brings the answer, which is captured once, then a tool's message after it.
abbrev seen : List (List (Message String) × List String)
seen =
    (ai answer ∷ [], "usage" ∷ [])
    ∷ (ai answer ∷ [], "usage" ∷ [])
    ∷ (ai answer ∷ other (text "42") ∷ [], "usage" ∷ [])
    ∷ []

execute-Completes_example :
    Completes 5 answer answer
      ("usage" ∷ [])
      new_task
      (execute 5 none (chunks_of seen ++ ended ("usage" ∷ []) ∷ []) new_task)
execute-Completes_example =
    execute-Completes 5 seen ((ai answer ∷ [], "usage" ∷ []) ∷ (ai answer ∷ [], "usage" ∷ []) ∷ [])
      [] answer (text "42" ∷ []) ("usage" ∷ []) ((ai answer ∷ [], "usage" ∷ []) ∷ [])
      ((ai answer ∷ other (text "42") ∷ [], "usage" ∷ []) ∷ []) [] answer ("usage" ∷ [])
      ("usage" ∷ []) new_task refl refl refl open_yet tt

abbrev submitted : Tasks (AiMessage String) String
submitted = execute_async "task" []

fresh_id : has {K = String} {V = Result (AiMessage String) String} [] "task" ≡ false
unfolding has get
fresh_id = refl

submitted_there : get submitted "task" ≡ some new_task
unfolding execute_async put get
submitted_there = refl

submitted-Reach : Kept.Reach submitted
submitted-Reach = Kept.next Kept.start (submits "task" fresh_id)

open_task_kept_example : has (cleanup_background_task "task" submitted) "task" ≡ true
open_task_kept_example =
    open_task_kept "task" new_task submitted-Reach (cleans "task") submitted_there open_yet
