-- ===== src/ToolCalls/Patch/Answered.antt =====
-- The order of the messages that `_build_patched_messages` makes: each message of the agent is
-- followed by one result for each of its calls.
use deer_seek_backend.Prelude.{
  ◌≡◌, refl, sym, ap, arith, beq_refl, String, true, Option, none, some, List, [], ◌∷◌, ◌++◌, ◌==◌,
  map, string_eq, if◌then◌else◌, Eq, contains, All, All-append, Bool-cases, Option-cases, inl, inr,
  eq_iff,
}
use deer_seek_backend.Dict.{get_or, put}
use deer_seek_backend.Dict.Laws.{get_or-put}
use deer_seek_backend.ToolCalls.{
  Args, Call, ToolMessage, Message, tool, ai, other, or_string, message_tool_calls,
}
use deer_seek_backend.ToolCalls.Patch.{
  Queues, enqueue, ids, placeholder, result_from, results_for, tool_call_ids, patch_from, patched,
  build_patched_messages, model_messages, same_all,
}

-- A message, where of a tool's message only the call that it answers counts.
pub data Shape (J : Type 0) : Type 0 where
  result : String → Shape J
  message : Message J → Shape J

module _ {J : Type 0} where
  abbrev pub shape : Message J → Shape J
  shape (tool t) = result t.tool_call_id
  shape m = message m

  -- Each queue holds results for its own call.
  abbrev pub IsKeyed : Queues J → Type 0
  IsKeyed q = (i : String) → All (λ t. t.tool_call_id ≡ i) (get_or q i [])

  put-IsKeyed :
      (q : Queues J) (i : String) (ts : List (ToolMessage J))
      → IsKeyed q
      → All (λ t. t.tool_call_id ≡ i) ts
      → IsKeyed (put q i ts)
  put-IsKeyed q i ts keyed all j = elim (Bool-cases (i == j)) [
    | inl same ↦ rw (get_or-put q i j ts [], same, sym ((eq_iff i j).0 same)) all
    | inr apart ↦ rw (get_or-put q i j ts [], apart) (keyed j)
  ]

  pub enqueue-IsKeyed : (ms : List (Message J)) (q : Queues J) → IsKeyed q → IsKeyed (enqueue ms q)
  unfolding enqueue
  enqueue-IsKeyed [] q keyed = keyed
  enqueue-IsKeyed (tool t ∷ ms) q keyed = enqueue-IsKeyed ms _ (
      put-IsKeyed q t.tool_call_id _ keyed
        (All-append _ _ (t ∷ []) (keyed t.tool_call_id) (refl, tt)))
  enqueue-IsKeyed (ai a ∷ ms) q keyed = enqueue-IsKeyed ms q keyed
  enqueue-IsKeyed (other v ∷ ms) q keyed = enqueue-IsKeyed ms q keyed

  pub result_from-IsKeyed :
      (i : String) (c : Call J) (ts : List (ToolMessage J)) (q : Queues J)
      → IsKeyed q
      → All (λ t. t.tool_call_id ≡ i) ts
      → ((result_from i c ts q).0.tool_call_id ≡ i) × IsKeyed (result_from i c ts q).1
  unfolding result_from placeholder
  result_from-IsKeyed i c [] q keyed all = (refl, keyed)
  result_from-IsKeyed i c (t ∷ ts) q keyed (here, all) = (here, put-IsKeyed q i ts keyed all)

  pub ids_given :
      (i : String) (c : Call J) (cs : List (Call J))
      → or_string c.id none ≡ some i
      → ids (c ∷ cs) ≡ i ∷ ids cs
  unfolding ids
  ids_given i c cs given = rw (given, ids) refl

  pub ids_absent :
      (c : Call J) (cs : List (Call J)) → or_string c.id none ≡ none → ids (c ∷ cs) ≡ ids cs
  unfolding ids
  ids_absent c cs absent = rw (absent, ids) refl

  pub results_for_given :
      (i : String) (c : Call J) (cs : List (Call J)) (q : Queues J)
      → or_string c.id none ≡ some i
      → let next = result_from i c (get_or q i []) q in
        results_for (c ∷ cs) q
        ≡ (tool next.0 ∷ (results_for cs next.1).0, (results_for cs next.1).1)
  unfolding results_for
  results_for_given i c cs q given = rw (given, results_for) refl

  pub results_for_absent :
      (c : Call J) (cs : List (Call J)) (q : Queues J)
      → or_string c.id none ≡ none
      → results_for (c ∷ cs) q ≡ results_for cs q
  unfolding results_for
  results_for_absent c cs q absent = rw (absent, results_for) refl

  pub results_for-shape :
      (cs : List (Call J)) (q : Queues J)
      → IsKeyed q
      → (map shape (results_for cs q).0 ≡ map result (ids cs)) × IsKeyed (results_for cs q).1
  unfolding results_for ids
  results_for-shape [] q keyed = (refl, keyed)
  results_for-shape (c ∷ cs) q keyed = elim (Option-cases (or_string c.id none)) [
    | inl absent ↦
        rw (results_for_absent c cs q absent, ids_absent c cs absent) (results_for-shape cs q keyed)
    | inr (i, given) ↦
        let (here, keyed') = result_from-IsKeyed i c (get_or q i []) q keyed (keyed i) in
        let (rest, keyed'') = results_for-shape cs _ keyed' in
        rw (results_for_given i c cs q given, ids_given i c cs given) (rw (here, rest), keyed'')
  ]

  map_append_shape :
      (xs ys : List (Message J)) → map shape (xs ++ ys) ≡ map shape xs ++ map shape ys
  map_append_shape [] ys = refl
  map_append_shape (x ∷ xs) ys = ap (λ r. shape x ∷ r) (map_append_shape xs ys)

module _ {J : Type 0} (loads : String → Option (Args J)) where
  -- What is called for: each message but the results of known calls, and after a message of the agent
  -- one result for each of its calls, in their order.
  unfoldable pub called_for : List String → List (Message J) → List (Shape J)
  called_for known [] = []
  called_for known (tool t ∷ ms) =
      let rest = called_for known ms in
      if contains t.tool_call_id known then rest else result t.tool_call_id ∷ rest
  called_for known (ai a ∷ ms) =
      message (ai a) ∷ map result (ids (message_tool_calls loads a)) ++ called_for known ms
  called_for known (other v ∷ ms) = message (other v) ∷ called_for known ms

  patch_from-shape :
      (known : List String) (ms : List (Message J)) (q : Queues J)
      → IsKeyed q
      → map shape (patch_from loads known ms q) ≡ called_for known ms
  unfolding patch_from called_for
  patch_from-shape known [] q keyed = refl
  patch_from-shape known (tool t ∷ ms) q keyed = elim (Bool-cases (contains t.tool_call_id known)) [
    | inl answered ↦ rw answered (patch_from-shape known ms q keyed)
    | inr orphan ↦
        rw orphan (ap (λ r. result t.tool_call_id ∷ r) (patch_from-shape known ms q keyed))
  ]
  patch_from-shape known (ai a ∷ ms) q keyed =
      let (here, keyed') = results_for-shape (message_tool_calls loads a) q keyed in
      rw (
        map_append_shape (results_for (message_tool_calls loads a) q).0
            (patch_from loads known ms (results_for (message_tool_calls loads a) q).1),
        here,
        patch_from-shape known ms _ keyed',
      )
  patch_from-shape known (other v ∷ ms) q keyed =
      ap (λ r. message (other v) ∷ r) (patch_from-shape known ms q keyed)

  pub patched-shape :
      (ms : List (Message J))
      → map shape (patched loads ms) ≡ called_for (tool_call_ids loads ms) ms
  unfolding patched get_or
  patched-shape ms =
      patch_from-shape (tool_call_ids loads ms) ms (enqueue ms []) (enqueue-IsKeyed ms [] (λ i. tt))

module _ {A : Type 0} ⦃e : Eq A⦄ where
  pub same_all_eq : (xs ys : List A) → same_all xs ys ≡ true → xs ≡ ys
  unfolding same_all
  same_all_eq [] [] h = refl
  same_all_eq (x ∷ xs) (y ∷ ys) h =
      let rest = same_all_eq xs ys in grind (arith, e.beq_iff x y, rest)
  same_all_eq [] (y ∷ ys) h = grind arith
  same_all_eq (x ∷ xs) [] h = grind arith

  pub same_all_refl : (xs : List A) → same_all xs xs ≡ true
  unfolding same_all
  same_all_refl [] = refl
  same_all_refl (x ∷ xs) = rw (beq_refl x) (same_all_refl xs)

module _ {J : Type 0} (loads : String → Option (Args J)) ⦃e : Eq (Message J)⦄ where
  pub model_messages_lem : (ms : List (Message J)) → model_messages loads ms ≡ patched loads ms
  unfolding model_messages build_patched_messages
  model_messages_lem ms = elim (Bool-cases (same_all (patched loads ms) ms)) [
    | inl same ↦
        rw (same, build_patched_messages, model_messages)
          (sym (same_all_eq (patched loads ms) ms same))
    | inr changed ↦ rw (changed, build_patched_messages, model_messages) refl
  ]

  -- The model gets, in the conversation's order, each message but the results of known calls, and
  -- directly after each message of the agent one result for each of its calls that has an id.
  pub calls_answered :
      (ms : List (Message J))
      → map shape (model_messages loads ms) ≡ called_for loads (tool_call_ids loads ms) ms
  calls_answered ms = rw (model_messages_lem ms) (patched-shape loads ms)
