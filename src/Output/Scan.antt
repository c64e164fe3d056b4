-- ===== src/Output/Scan.antt =====
-- The scan of a message before its budget is enforced (tool_output_budget_middleware.py).
use deer_seek_backend.Prelude.{
  ℕ, ◌≡◌, refl, sym, ap, ◌∙◌, arith, String, Bool, true, false, true≢false, not, ◌&&◌, Option, none,
  some, List, ◌==◌, nat_eq, string_eq, contains, length, ltb, if◌then◌else◌, Bool-cases, if_false,
  inl, inr,
}
use deer_seek_backend.Output.Budget.{
  Config, ToolMessage, Texts, effective_trigger, name_or, or_fallback, budget_content, patch_text,
  patch_tool_message, is_longer, tool_message_over_budget, wrap_tool_call,
}

name_or_named : (default name : String) → (name == "") ≡ false → name_or default (some name) ≡ name
unfolding name_or
name_or_named default name named = if_false (name == "") default name named

branches :
    {X : Type 0} (enabled over : Bool) (x : Option X)
    → (over ≡ false → x ≡ none)
    → (if not enabled then none else if not over then none else x) ≡ (if enabled then x else none)
branches false over x h = refl
branches true true x h = refl
branches true false x h = sym (h refl)

module _ {A P : Type 0} (is_newline : A → Bool) (digit : ℕ → A) (texts : Texts A P)
    (c : Config) where
  fits_fallback :
      (tool_name : String) (text : List A)
      → (not (c.fallback_max_chars == 0) && ltb c.fallback_max_chars (length text)) ≡ false
      → or_fallback is_newline digit texts c tool_name text ≡ none
  unfolding or_fallback
  fits_fallback tool_name text fits = if_false _ _ _ fits

  short_unchanged :
      (path : Option P) (tool_name : String) (text : Option (List A))
      → is_longer c (effective_trigger c tool_name) text ≡ false
      → patch_text is_newline digit texts c path tool_name text ≡ none
  unfolding is_longer effective_trigger patch_text budget_content
  short_unchanged path tool_name none short = refl
  short_unchanged path tool_name (some text) short = ground (arith, fits_fallback tool_name text)

  scan_complete :
      (path : Option P) (tool_name : String) (text : Option (List A))
      → (tool_name == "") ≡ false
      → let msg : ToolMessage A = record { name = some tool_name; text = text } in
        tool_message_over_budget c msg ≡ false
        → patch_tool_message is_newline digit texts c path msg ≡ none
  unfolding tool_message_over_budget patch_tool_message name_or
  scan_complete path tool_name text named short =
      rw named (elim (Bool-cases (contains tool_name c.exempt_tools)) [
        | inl exempt ↦ rw exempt refl
        | inr counted ↦ rw counted (
            short_unchanged path tool_name text (
              sym (if_false _ false (is_longer c (effective_trigger c tool_name) text) counted)
              ∙ ap
                  (λ k.
                    if contains k c.exempt_tools
                    then false
                    else is_longer c (effective_trigger c k) text)
                  (sym (name_or_named "" tool_name named))
              ∙ short))
      ])

  -- The scan before the budget changes nothing but the work, for a message that has a name: the
  -- middleware does what the budget alone would do, unless it is switched off.
  pub scan_is_sound :
      (path : Option P) (tool_name : String) (text : Option (List A))
      → (tool_name == "") ≡ false
      → let msg : ToolMessage A = record { name = some tool_name; text = text } in
        wrap_tool_call is_newline digit texts c path msg
        ≡ (if c.enabled then patch_tool_message is_newline digit texts c path msg else none)
  unfolding wrap_tool_call
  scan_is_sound path tool_name text named =
      let msg : ToolMessage A = record { name = some tool_name; text = text } in
      elim (Bool-cases (tool_message_over_budget c msg)) [
        | inl long ↦
            branches c.enabled (tool_message_over_budget c msg) _
              (λ short. absurd (true≢false (sym long ∙ short)))
        | inr short ↦ branches c.enabled _ _ (λ h. scan_complete path tool_name text named short)
      ]
