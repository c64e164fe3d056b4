-- ===== src/Subagents/Content.antt =====
-- The text of a subagent's last message (executor.py, the end of `_aexecute`).
use deer_seek_backend.Prelude.{String, Option, none, some, List, [], ◌∷◌, ◌++◌}
use Prim.Native.String.{◌++◌ as join}

-- A block of a message's content: a string, a dict with its text if that is a string, or neither.
pub data Block : Type 0 where
  chunk : String → Block
  dict : Option String → Block
  neither : Block

-- The content of a message. `value` has the text of any other value.
pub data Content : Type 0 where
  text : String → Content
  blocks : List Block → Content
  value : String → Content

-- "".join(parts)
unfoldable pub concat : List String → String
concat [] = ""
concat (s ∷ ss) = join s (concat ss)

-- "\n".join(parts)
unfoldable pub join_lines : List String → String
join_lines [] = ""
join_lines (s ∷ []) = s
join_lines (s ∷ t ∷ ss) = join s (join "\n" (join_lines (t ∷ ss)))

unfoldable pub flushed : List String → List String
unfolding concat
flushed [] = []
flushed (s ∷ ss) = concat (s ∷ ss) ∷ []

unfoldable pub dict_text : Option String → List String
dict_text none = []
dict_text (some s) = s ∷ []

-- The loop over the blocks: `parts` are the texts so far, `pending` the strings since the last dict.
unfoldable pub collect : List Block → List String → List String → List String
unfolding flushed dict_text
collect [] parts pending = parts ++ flushed pending
collect (chunk s ∷ bs) parts pending = collect bs parts (pending ++ s ∷ [])
collect (dict t ∷ bs) parts pending = collect bs ((parts ++ flushed pending) ++ dict_text t) []
collect (neither ∷ bs) parts pending = collect bs parts pending

unfoldable pub or_no_text : List String → String
unfolding join_lines
or_no_text [] = "No text content in response"
or_no_text (p ∷ ps) = join_lines (p ∷ ps)

unfoldable pub content_text : Content → String
unfolding collect or_no_text
content_text (text s) = s
content_text (blocks bs) = or_no_text (collect bs [] [])
content_text (value s) = s
