-- ===== src/ToolCalls/Patch/Queued.antt =====
-- The queues of tool messages by the call that they answer, in `_build_patched_messages`: what they
-- hold, and what taking the next result leaves.
use deer_seek_backend.Prelude.{
  ◌≡◌, ◌∙◌, refl, sym, ap, arith, String, true, false, none, List, [], ◌∷◌, ◌++◌, ◌==◌, string_eq,
  if◌then◌else◌, contains, Bool-cases, Option-cases, inl, inr, eq_iff, beq_refl, append-nil,
  append_assoc,
}
use deer_seek_backend.Dict.{get_or, put}
use deer_seek_backend.Dict.Laws.{get_or-put}
use deer_seek_backend.ToolCalls.{Call, ToolMessage, Message, tool, ai, other, or_string}
use deer_seek_backend.ToolCalls.Patch.{Queues, enqueue, ids, result_from, results_for}
use deer_seek_backend.ToolCalls.Patch.Answered.{
  IsKeyed, result_from-IsKeyed, ids_given, ids_absent, results_for_given, results_for_absent,
}

module _ {J : Type 0} where
  -- The results among the messages that answer a call.
  unfoldable pub results_of : String → List (Message J) → List (ToolMessage J)
  results_of i [] = []
  results_of i (tool t ∷ ms) =
      let rest = results_of i ms in if t.tool_call_id == i then t ∷ rest else rest
  results_of i (_ ∷ ms) = results_of i ms

  pub results_of_here :
      (i : String) (t : ToolMessage J) (ms : List (Message J))
      → t.tool_call_id ≡ i
      → results_of i (tool t ∷ ms) ≡ t ∷ results_of i ms
  unfolding results_of
  results_of_here i t ms h = rw ((eq_iff t.tool_call_id i).1 h, results_of) refl

  pub results_of_apart :
      (i : String) (t : ToolMessage J) (ms : List (Message J))
      → (t.tool_call_id == i) ≡ false
      → results_of i (tool t ∷ ms) ≡ results_of i ms
  unfolding results_of
  results_of_apart i t ms h = rw (h, results_of) refl

  pub enqueue-results_of :
      (ms : List (Message J)) (q : Queues J) (i : String)
      → get_or (enqueue ms q) i [] ≡ get_or q i [] ++ results_of i ms
  unfolding enqueue results_of
  enqueue-results_of [] q i = sym (append-nil (get_or q i []))
  enqueue-results_of (tool t ∷ ms) q i =
      let k = t.tool_call_id in
      let q' = put q k (get_or q k [] ++ t ∷ []) in
      elim (Bool-cases (k == i)) [
        | inl same ↦ rw (
          enqueue-results_of ms q' i,
          get_or-put q k i (get_or q k [] ++ t ∷ []) [],
          same,
          ap (λ j. get_or q j []) ((eq_iff k i).0 same),
          append_assoc (get_or q i []) (t ∷ []) (results_of i ms),
        )
        | inr apart ↦
            rw (enqueue-results_of ms q' i, get_or-put q k i (get_or q k [] ++ t ∷ []) [], apart)
      ]
  enqueue-results_of (ai a ∷ ms) q i = enqueue-results_of ms q i
  enqueue-results_of (other v ∷ ms) q i = enqueue-results_of ms q i

  -- The queues of the known calls hold what is among the messages.
  abbrev pub Holds : List String → Queues J → List (Message J) → Type 0
  Holds known q ms = (i : String) → contains i known ≡ true → get_or q i [] ≡ results_of i ms

  abbrev pub AllKnown : List String → List (Call J) → Type 0
  AllKnown known cs = (i : String) → contains i (ids cs) ≡ true → contains i known ≡ true

  pub take_first :
      (i : String) (c : Call J) (t : ToolMessage J) (ts : List (ToolMessage J)) (q : Queues J)
      → get_or q i [] ≡ t ∷ ts
      → result_from i c (get_or q i []) q ≡ (t, put q i ts)
  unfolding result_from
  take_first i c t ts q h = rw (h, result_from) refl

  pub Holds-put :
      (known : List String) (i : String) (q : Queues J) (t : ToolMessage J) (ms : List (Message J))
      → t.tool_call_id ≡ i
      → Holds known q (tool t ∷ ms)
      → Holds known (put q i (results_of i ms)) ms
  Holds-put known i q t ms h holds j k = elim (Bool-cases (i == j)) [
    | inl same ↦
        rw (get_or-put q i j (results_of i ms) [], same)
          (ap (λ k. results_of k ms) ((eq_iff i j).0 same))
    | inr apart ↦
        let apart' : (t.tool_call_id == j) ≡ false = rw h apart in
        rw (get_or-put q i j (results_of i ms) [], apart)
          (holds j k ∙ results_of_apart j t ms apart')
  ]

  pub Holds-orphan :
      (known : List String) (q : Queues J) (t : ToolMessage J) (ms : List (Message J))
      → contains t.tool_call_id known ≡ false
      → Holds known q (tool t ∷ ms)
      → Holds known q ms
  Holds-orphan known q t ms orphan holds i k = elim (Bool-cases (t.tool_call_id == i)) [
    | inl same ↦
        let unknown : contains i known ≡ false =
          ap (λ j. contains j known) (sym ((eq_iff t.tool_call_id i).0 same)) ∙ orphan in
        absurd (ground (arith, k, unknown))
    | inr apart ↦ holds i k ∙ results_of_apart i t ms apart
  ]

  pub results_again :
      (known : List String) (cs : List (Call J)) (q q' : Queues J) (rest : List (Message J))
      → AllKnown known cs
      → IsKeyed q
      → Holds known q' ((results_for cs q).0 ++ rest)
      → ((results_for cs q').0 ≡ (results_for cs q).0) × Holds known (results_for cs q').1 rest
  unfolding results_for
  results_again known [] q q' rest all keyed holds = (refl, holds)
  results_again known (c ∷ cs) q q' rest all keyed holds =
      elim (Option-cases (or_string c.id none)) [
        | inl absent ↦
            let holds' : Holds known q' ((results_for cs q).0 ++ rest) =
              λ i k. rw (sym (results_for_absent c cs q absent)) (holds i k) in
            let all' : AllKnown known cs = λ i k. all i (rw (ids_absent c cs absent) k) in
            rw (results_for_absent c cs q absent, results_for_absent c cs q' absent)
              (results_again known cs q q' rest all' keyed holds')
        | inr (i, given) ↦
            let next = result_from i c (get_or q i []) q in
            let (here, keyed') = result_from-IsKeyed i c (get_or q i []) q keyed (keyed i) in
            let after = (results_for cs next.1).0 ++ rest in
            let ids_here = ids_given i c cs given in
            let known_i : contains i known ≡ true = all i (rw (ids_here, beq_refl i) refl) in
            let all' : AllKnown known cs = λ j k. all j (rw ids_here (ground (arith, k))) in
            let holds' : Holds known q' (tool next.0 ∷ after) = λ j k.
              holds j k ∙ ap (λ p. results_of j (p.0 ++ rest)) (results_for_given i c cs q given) in
            let first : get_or q' i [] ≡ next.0 ∷ results_of i after =
              holds' i known_i ∙ results_of_here i next.0 after here in
            let taken = take_first i c next.0 (results_of i after) q' first in
            let (same, left) =
              results_again known cs next.1 (put q' i (results_of i after)) rest all' keyed'
                (Holds-put known i q' next.0 after here holds') in
            rw (results_for_given i c cs q given, results_for_given i c cs q' given, taken)
              (ap (λ ms. tool next.0 ∷ ms) same, left)
      ]
