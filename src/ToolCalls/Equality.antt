-- ===== src/ToolCalls/Equality.antt =====
-- Python's `==` on the messages of a conversation, given one on the fields that are passed on.
use deer_seek_backend.Prelude.{
  ◌≡◌, ◌∙◌, ◌↔◌, ◌⊎◌, inl, inr, refl, sym, ap, arith, String, Bool, true, false, ◌&&◌, Option, none,
  some, List, [], ◌∷◌, Eq, ◌==◌, string_eq, option_eq, pair_eq,
}
use deer_seek_backend.Dict.{Dict}
use deer_seek_backend.ToolCalls.{
  Args, object, truthy, falsy, Call, Function, RawCall, not_a_dict, dict, InvalidCall, AiMessage,
  ToolContent, text, other, ToolMessage, Message, tool, ai,
}

-- An equality by way of a code from which the value can be read back.
abbrev pub by_code :
    {A B : Type 0} ⦃e : Eq B⦄ (code : A → B) (read : B → A) → ((a : A) → read (code a) ≡ a) → Eq A
by_code ⦃e⦄ code read back = record {
  beq = λ x y. e.beq (code x) (code y);
  beq_iff = λ x y. (
    λ h. sym (back x) ∙ ap read ((e.beq_iff (code x) (code y)).0 h) ∙ back y,
    λ h. (e.beq_iff (code x) (code y)).1 (ap code h),
  );
}

abbrev pub bool_beq : Bool → Bool → Bool
bool_beq true b = b
bool_beq false true = false
bool_beq false false = true

pub bool_beq_iff : (x y : Bool) → (bool_beq x y ≡ true) ↔ (x ≡ y)
bool_beq_iff true true = ground arith
bool_beq_iff true false = ground arith
bool_beq_iff false true = ground arith
bool_beq_iff false false = ground arith

instance abbrev pub bool_eq : Eq Bool
bool_eq = record { beq = bool_beq; beq_iff = bool_beq_iff }

module _ {A B : Type 0} ⦃ea : Eq A⦄ ⦃eb : Eq B⦄ where
  abbrev pub sum_beq : A ⊎ B → A ⊎ B → Bool
  sum_beq (inl x) (inl y) = x == y
  sum_beq (inr x) (inr y) = x == y
  sum_beq _ _ = false

  pub sum_beq_iff : (x y : A ⊎ B) → (sum_beq x y ≡ true) ↔ (x ≡ y)
  sum_beq_iff (inl x) (inl y) = ground (arith, ea.beq_iff x y)
  sum_beq_iff (inr x) (inr y) = ground (arith, eb.beq_iff x y)
  sum_beq_iff (inl x) (inr y) = ground arith
  sum_beq_iff (inr x) (inl y) = ground arith

  instance abbrev pub sum_eq : Eq (A ⊎ B)
  sum_eq = record { beq = sum_beq; beq_iff = sum_beq_iff }

module _ {A : Type 0} ⦃e : Eq A⦄ where
  abbrev pub list_beq : List A → List A → Bool
  list_beq [] [] = true
  list_beq (x ∷ xs) (y ∷ ys) = x == y && list_beq xs ys
  list_beq _ _ = false

  pub list_beq_iff : (xs ys : List A) → (list_beq xs ys ≡ true) ↔ (xs ≡ ys)
  list_beq_iff [] [] = ground arith
  list_beq_iff (x ∷ xs) (y ∷ ys) = ground (arith, e.beq_iff x y, list_beq_iff xs ys)
  list_beq_iff [] (y ∷ ys) = ground arith
  list_beq_iff (x ∷ xs) [] = ground arith

  instance abbrev pub list_eq : Eq (List A)
  list_eq = record { beq = list_beq; beq_iff = list_beq_iff }

instance abbrev pub function_eq : Eq Function
function_eq =
    by_code {B = Option String × Option String} (λ f. (f.name, f.arguments))
      (λ c. record { name = c.0; arguments = c.1 }) (λ f. refl)

module _ {J : Type 0} ⦃e : Eq J⦄ where
  abbrev pub args_code : Args J → Option (Dict String J ⊎ J)
  args_code (object d) = some (inl d)
  args_code (truthy v) = some (inr v)
  args_code falsy = none

  abbrev pub args_read : Option (Dict String J ⊎ J) → Args J
  args_read (some (inl d)) = object d
  args_read (some (inr v)) = truthy v
  args_read none = falsy

  pub args_back : (a : Args J) → args_read (args_code a) ≡ a
  args_back (object d) = refl
  args_back (truthy v) = refl
  args_back falsy = refl

  instance abbrev pub args_eq : Eq (Args J)
  args_eq = by_code args_code args_read args_back

  instance abbrev pub call_eq : Eq (Call J)
  call_eq =
      by_code {B = Option String × (String × (Dict String J × (Bool × Option String)))}
        (λ c. (c.id, (c.name, (c.args, (c.invalid, c.error)))))
        (λ c. record {
          id = c.0;
          name = c.1.0;
          args = c.1.1.0;
          invalid = c.1.1.1.0;
          error = c.1.1.1.1;
        })
        (λ c. refl)

  abbrev pub raw_code :
      RawCall J → J ⊎ (Option String × (Option String × (Option (Args J) × Option Function)))
  raw_code (not_a_dict v) = inl v
  raw_code (dict id name args function) = inr (id, (name, (args, function)))

  abbrev pub raw_read :
      J ⊎ (Option String × (Option String × (Option (Args J) × Option Function))) → RawCall J
  raw_read (inl v) = not_a_dict v
  raw_read (inr (id, (name, (args, function)))) = dict id name args function

  pub raw_back : (c : RawCall J) → raw_read (raw_code c) ≡ c
  raw_back (not_a_dict v) = refl
  raw_back (dict id name args function) = refl

  instance abbrev pub raw_eq : Eq (RawCall J)
  raw_eq = by_code raw_code raw_read raw_back

  abbrev pub invalid_code : InvalidCall J → J ⊎ (Option String × (Option String × Option String))
  invalid_code (not_a_dict v) = inl v
  invalid_code (dict id name error) = inr (id, (name, error))

  abbrev pub invalid_read : J ⊎ (Option String × (Option String × Option String)) → InvalidCall J
  invalid_read (inl v) = not_a_dict v
  invalid_read (inr (id, (name, error))) = dict id name error

  pub invalid_back : (c : InvalidCall J) → invalid_read (invalid_code c) ≡ c
  invalid_back (not_a_dict v) = refl
  invalid_back (dict id name error) = refl

  instance abbrev pub invalid_eq : Eq (InvalidCall J)
  invalid_eq = by_code invalid_code invalid_read invalid_back

  instance abbrev pub ai_eq : Eq (AiMessage J)
  ai_eq =
      by_code
        {B = J
          × (List (Call J)
              × (List (RawCall J) × (List (InvalidCall J) × (Option J × Option String))))}
        (λ m. (
          m.content,
          (
            m.tool_calls,
            (m.raw_tool_calls, (m.invalid_tool_calls, (m.function_call, m.finish_reason))),
          ),
        ))
        (λ c. record {
          content = c.0;
          tool_calls = c.1.0;
          raw_tool_calls = c.1.1.0;
          invalid_tool_calls = c.1.1.1.0;
          function_call = c.1.1.1.1.0;
          finish_reason = c.1.1.1.1.1;
        })
        (λ m. refl)

  abbrev pub content_code : ToolContent J → String ⊎ J
  content_code (text s) = inl s
  content_code (other v) = inr v

  abbrev pub content_read : String ⊎ J → ToolContent J
  content_read (inl s) = text s
  content_read (inr v) = other v

  pub content_back : (c : ToolContent J) → content_read (content_code c) ≡ c
  content_back (text s) = refl
  content_back (other v) = refl

  instance abbrev pub content_eq : Eq (ToolContent J)
  content_eq = by_code content_code content_read content_back

  instance abbrev pub tool_eq : Eq (ToolMessage J)
  tool_eq =
      by_code {B = String × (ToolContent J × (Option String × String))}
        (λ t. (t.tool_call_id, (t.content, (t.name, t.status))))
        (λ c. record { tool_call_id = c.0; content = c.1.0; name = c.1.1.0; status = c.1.1.1 })
        (λ t. refl)

  abbrev pub message_code : Message J → ToolMessage J ⊎ (AiMessage J ⊎ J)
  message_code (tool t) = inl t
  message_code (ai a) = inr (inl a)
  message_code (other v) = inr (inr v)

  abbrev pub message_read : ToolMessage J ⊎ (AiMessage J ⊎ J) → Message J
  message_read (inl t) = tool t
  message_read (inr (inl a)) = ai a
  message_read (inr (inr v)) = other v

  pub message_back : (m : Message J) → message_read (message_code m) ≡ m
  message_back (tool t) = refl
  message_back (ai a) = refl
  message_back (other v) = refl

  instance abbrev pub message_eq : Eq (Message J)
  message_eq = by_code message_code message_read message_back
