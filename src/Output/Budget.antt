-- ===== src/Output/Budget.antt =====
-- packages/harness/deerflow/agents/middlewares/tool_output_budget_middleware.py: the budget of a tool's
-- output. Where a long output was saved is an argument, of any type `P`; `before` and `after` are the
-- texts around the number of omitted characters.
use deer_seek_backend.Prelude.{
  ℕ, suc, ◌-◌, ◌/◌, min, max, String, Bool, false, not, ◌&&◌, ◌||◌, Option, none, some, List, [],
  ◌∷◌, ◌++◌, ◌==◌, nat_eq, string_eq, contains, length, take, drop, leb, ltb, if◌then◌else◌,
}
use deer_seek_backend.Dict.{Dict, get_or}
use deer_seek_backend.Output.{text_marker}

unfoldable pub or_index : Option ℕ → Bool → ℕ → Option ℕ
or_index none found i = if found then some i else none
or_index (some j) found i = some j

unfoldable pub after_newline : ℕ → Option ℕ → ℕ
after_newline pos none = pos
after_newline pos (some nl) = suc nl

unfoldable pub snapped_tail : ℕ → ℕ → ℕ → ℕ
snapped_tail head_end start snapped = if ltb head_end snapped then snapped else start

module _ {A : Type 0} (is_newline : A → Bool) where
  unfoldable pub last_newline : ℕ → List A → Option ℕ
  unfolding or_index
  last_newline i [] = none
  last_newline i (x ∷ xs) = or_index (last_newline (suc i) xs) (is_newline x) i

  -- text.rfind("\n", lo, hi)
  unfoldable pub rfind : List A → ℕ → ℕ → Option ℕ
  unfolding last_newline
  rfind text lo hi = last_newline lo (drop lo (take hi text))

  unfoldable pub snap_to_line_boundary : List A → ℕ → ℕ
  unfolding rfind after_newline
  snap_to_line_boundary text pos =
      if pos == 0 || leb (length text) pos
      then pos
      else after_newline pos (rfind text (pos / 2) pos)

  -- Where the tail starts, if it should have `tail_chars`.
  unfoldable pub tail_start : List A → ℕ → ℕ → ℕ
  unfolding snap_to_line_boundary snapped_tail
  tail_start content head_end tail_chars =
      let start = max head_end (length content - tail_chars) in
      snapped_tail head_end start (snap_to_line_boundary content start)

  module _ (digit : ℕ → A) (before after : List A) where
    unfoldable pub cut_between : List A → ℕ → ℕ → List A
    unfolding text_marker
    cut_between content head_end start =
        let head = take head_end content in
        let tail = drop start content in
        head ++ text_marker digit before after (length content - length head - length tail) ++ tail

    -- The text that stays, between ends of the given lengths.
    unfoldable pub head_and_tail : ℕ → ℕ → List A → List A
    unfolding cut_between tail_start snap_to_line_boundary
    head_and_tail head_chars tail_chars content =
        let head_end = snap_to_line_boundary content (min head_chars (length content)) in
        cut_between content head_end (tail_start content head_end tail_chars)

    -- `_build_preview`
    abbrev pub build_preview : ℕ → ℕ → List A → List A
    build_preview = head_and_tail

    unfoldable pub within_budget : ℕ → ℕ → ℕ → List A → List A
    unfolding head_and_tail
    within_budget budget head_chars tail_chars content =
        head_and_tail (min head_chars budget) (min tail_chars (budget - min head_chars budget))
          content

    -- `_build_fallback`
    unfoldable pub build_fallback : ℕ → ℕ → ℕ → List A → List A
    unfolding within_budget text_marker
    build_fallback max_chars head_chars tail_chars content =
        let overhead = length (text_marker digit before after (length content)) in
        if max_chars == 0 || leb (length content) max_chars
        then content
        else if leb max_chars overhead
        then take max_chars content
        else within_budget (max_chars - overhead) head_chars tail_chars content

pub record Config : Type 0 where
  pub enabled : Bool
  pub externalize_min_chars : ℕ
  pub tool_overrides : Dict String ℕ
  pub fallback_max_chars : ℕ
  pub fallback_head_chars : ℕ
  pub fallback_tail_chars : ℕ
  pub preview_head_chars : ℕ
  pub preview_tail_chars : ℕ
  pub exempt_tools : List String

-- `text` is the text of the content, if it has one.
pub record ToolMessage (A : Type 0) : Type 0 where
  pub name : Option String
  pub text : Option (List A)

abbrev pub threshold_of : Config → String → ℕ
threshold_of c tool_name = get_or c.tool_overrides tool_name c.externalize_min_chars

-- `none` is -1.
unfoldable pub effective_trigger : Config → String → Option ℕ
effective_trigger c tool_name =
    let externalize = threshold_of c tool_name in
    if externalize == 0
    then if c.fallback_max_chars == 0 then none else some c.fallback_max_chars
    else if c.fallback_max_chars == 0
    then some externalize
    else some (min externalize c.fallback_max_chars)

-- msg.name or default
unfoldable pub name_or : String → Option String → String
name_or default none = default
name_or default (some n) = if n == "" then default else n

-- The texts around the number of omitted characters: of a preview that refers to a path, and of a
-- fallback for a tool.
pub record Texts (A P : Type 0) : Type 0 where
  pub reference : String → P → List A → List A × List A
  pub omission : String → List A × List A

module _ {A P : Type 0} (is_newline : A → Bool) (digit : ℕ → A) (texts : Texts A P)
    (c : Config) where
  unfoldable pub or_fallback : String → List A → Option (List A)
  unfolding build_fallback
  or_fallback tool_name content =
      let (before, after) = texts.omission tool_name in
      if not (c.fallback_max_chars == 0) && ltb c.fallback_max_chars (length content)
      then some (
          build_fallback is_newline digit before after c.fallback_max_chars c.fallback_head_chars
            c.fallback_tail_chars content)
      else none

  unfoldable pub preview_or_fallback : Option P → String → List A → Option (List A)
  unfolding or_fallback head_and_tail
  preview_or_fallback none tool_name content = or_fallback tool_name content
  preview_or_fallback (some path) tool_name content =
      let (before, after) = texts.reference tool_name path content in
      some (
        build_preview is_newline digit before after c.preview_head_chars c.preview_tail_chars
          content)

  -- `_budget_content`: `none` if nothing changes. `path` is where the content would be saved.
  unfoldable pub budget_content : Option P → String → List A → Option (List A)
  unfolding preview_or_fallback
  budget_content path tool_name content =
      let threshold = threshold_of c tool_name in
      if threshold == 0 && c.fallback_max_chars == 0
      then none
      else if leb (length content) threshold && leb (length content) c.fallback_max_chars
      then none
      else if not (threshold == 0) && ltb threshold (length content)
      then preview_or_fallback path tool_name content
      else or_fallback tool_name content

  unfoldable pub patch_text : Option P → String → Option (List A) → Option (List A)
  unfolding budget_content
  patch_text path tool_name none = none
  patch_text path tool_name (some text) = budget_content path tool_name text

  -- `_patch_tool_message`: the new content, if it changes.
  unfoldable pub patch_tool_message : Option P → ToolMessage A → Option (List A)
  unfolding patch_text name_or
  patch_tool_message path msg =
      let tool_name = name_or "unknown" msg.name in
      if contains tool_name c.exempt_tools then none else patch_text path tool_name msg.text

module _ {A : Type 0} (c : Config) where
  unfoldable pub is_longer : Option ℕ → Option (List A) → Bool
  is_longer none text = false
  is_longer (some trigger) none = false
  is_longer (some trigger) (some text) = ltb trigger (length text)

  -- `_tool_message_over_budget`, by the message's name or ""
  unfoldable pub tool_message_over_budget : ToolMessage A → Bool
  unfolding is_longer effective_trigger name_or
  tool_message_over_budget msg =
      let tool_name = name_or "" msg.name in
      if contains tool_name c.exempt_tools
      then false
      else is_longer (effective_trigger c tool_name) msg.text

-- `wrap_tool_call` for a tool that gave a message: the new content, if it changes.
unfoldable pub wrap_tool_call :
    {A P : Type 0} (is_newline : A → Bool) (digit : ℕ → A) (texts : Texts A P) (c : Config)
    → Option P
    → ToolMessage A
    → Option (List A)
unfolding tool_message_over_budget patch_tool_message
wrap_tool_call is_newline digit texts c path msg =
    if not c.enabled
    then none
    else if not (tool_message_over_budget c msg)
    then none
    else patch_tool_message is_newline digit texts c path msg
