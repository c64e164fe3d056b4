-- ===== src/ToolCalls/Patch/Twice.antt =====
-- `_build_patched_messages` leaves messages alone that it made.
use deer_seek_backend.Prelude.{
  ◌≡◌, ◌∙◌, refl, ap, arith, String, true, Option, none, List, [], ◌∷◌, ◌++◌, string_eq, Eq,
  contains, contains-append, Bool-cases, Option-cases, inl, inr, beq_refl,
}
use deer_seek_backend.Dict.{get_or}
use deer_seek_backend.ToolCalls.{
  Args, Call, Message, tool, ai, other, or_string, message_tool_calls,
}
use deer_seek_backend.ToolCalls.Patch.{
  Queues, enqueue, ids, result_from, results_for, tool_call_ids, patch_from, patched,
  build_patched_messages, model_messages,
}
use deer_seek_backend.ToolCalls.Patch.Answered.{
  IsKeyed, enqueue-IsKeyed, result_from-IsKeyed, ids_given, ids_absent, results_for_given,
  results_for_absent, model_messages_lem, same_all_refl, results_for-shape,
}
use deer_seek_backend.ToolCalls.Patch.Queued.{
  results_of, enqueue-results_of, Holds, AllKnown, Holds-orphan, results_again,
}

module _ {J : Type 0} (loads : String → Option (Args J)) where
  ids_of_results :
      (cs : List (Call J)) (q : Queues J) (rest : List (Message J))
      → tool_call_ids loads ((results_for cs q).0 ++ rest) ≡ tool_call_ids loads rest
  unfolding results_for tool_call_ids
  ids_of_results [] q rest = refl
  ids_of_results (c ∷ cs) q rest = elim (Option-cases (or_string c.id none)) [
    | inl absent ↦ rw (results_for_absent c cs q absent) (ids_of_results cs q rest)
    | inr (i, given) ↦ rw (results_for_given i c cs q given) (ids_of_results cs _ rest)
  ]

  ids_of_patched :
      (known : List String) (ms : List (Message J)) (q : Queues J)
      → tool_call_ids loads (patch_from loads known ms q) ≡ tool_call_ids loads ms
  unfolding patch_from tool_call_ids
  ids_of_patched known [] q = refl
  ids_of_patched known (tool t ∷ ms) q = elim (Bool-cases (contains t.tool_call_id known)) [
    | inl answered ↦ rw answered (ids_of_patched known ms q)
    | inr orphan ↦ rw orphan (ids_of_patched known ms q)
  ]
  ids_of_patched known (ai a ∷ ms) q =
      let calls = message_tool_calls loads a in
      let (results, q') = results_for calls q in
      ap (λ ids'. ids calls ++ ids')
        (ids_of_results calls q (patch_from loads known ms q') ∙ ids_of_patched known ms q')
  ids_of_patched known (other v ∷ ms) q = ids_of_patched known ms q

  module _ (known : List String) where
    results_dropped :
        (cs : List (Call J)) (q q' : Queues J) (rest : List (Message J))
        → AllKnown known cs
        → IsKeyed q
        → patch_from loads known ((results_for cs q).0 ++ rest) q' ≡ patch_from loads known rest q'
    unfolding results_for patch_from
    results_dropped [] q q' rest all keyed = refl
    results_dropped (c ∷ cs) q q' rest all keyed = elim (Option-cases (or_string c.id none)) [
      | inl absent ↦
          let all' : AllKnown known cs = λ i k. all i (rw (ids_absent c cs absent) k) in
          rw (results_for_absent c cs q absent) (results_dropped cs q q' rest all' keyed)
      | inr (i, given) ↦
          let next = result_from i c (get_or q i []) q in
          let (here, keyed') = result_from-IsKeyed i c (get_or q i []) q keyed (keyed i) in
          let ids_here = ids_given i c cs given in
          let known_i : contains i known ≡ true = all i (rw (ids_here, beq_refl i) refl) in
          let all' : AllKnown known cs = λ j k. all j (rw ids_here (ground (arith, k))) in
          rw (results_for_given i c cs q given, here, known_i)
            (results_dropped cs next.1 q' rest all' keyed')
    ]

    patch_again :
        (ms : List (Message J)) (q q' : Queues J)
        → ((i : String) → contains i (tool_call_ids loads ms) ≡ true → contains i known ≡ true)
        → IsKeyed q
        → Holds known q' (patch_from loads known ms q)
        → patch_from loads known (patch_from loads known ms q) q' ≡ patch_from loads known ms q
    unfolding patch_from tool_call_ids results_of
    patch_again [] q q' all keyed holds = refl
    patch_again (tool t ∷ ms) q q' all keyed holds =
        let rest = patch_from loads known ms q in
        elim (Bool-cases (contains t.tool_call_id known)) [
          | inl answered ↦
              let kept : patch_from loads known (tool t ∷ ms) q ≡ rest = rw answered refl in
              rw answered
                (patch_again ms q q' all keyed (λ i k. holds i k ∙ ap (results_of i) kept))
          | inr orphan ↦
              let kept : patch_from loads known (tool t ∷ ms) q ≡ tool t ∷ rest = rw orphan refl in
              let left : Holds known q' rest =
                Holds-orphan known q' t rest orphan (λ i k. holds i k ∙ ap (results_of i) kept) in
              rw (orphan, orphan) (ap (λ ms. tool t ∷ ms) (patch_again ms q q' all keyed left))
        ]
    patch_again (ai a ∷ ms) q q' all keyed holds =
        let calls = message_tool_calls loads a in
        let all_calls : AllKnown known calls =
          λ i k. all i (rw (contains-append i (ids calls) (tool_call_ids loads ms), k) refl) in
        let all' : (i : String)
            → contains i (tool_call_ids loads ms) ≡ true
            → contains i known ≡ true =
          λ i k.
            all i (ground (arith, k, contains-append i (ids calls) (tool_call_ids loads ms))) in
        let next = (results_for calls q).1 in
        let (shape_eq, keyed') = results_for-shape calls q keyed in
        let rest = patch_from loads known ms next in
        let (same, left) = results_again known calls q q' rest all_calls keyed holds in
        let again = patch_again ms next (results_for calls q').1 all' keyed' left in
        ap (λ ms. ai a ∷ ms)
          (rw (same, results_dropped calls q (results_for calls q').1 rest all_calls keyed, again)
            refl)
    patch_again (other v ∷ ms) q q' all keyed holds =
        ap (λ ms. other v ∷ ms) (patch_again ms q q' all keyed holds)

  patched_twice : (ms : List (Message J)) → patched loads (patched loads ms) ≡ patched loads ms
  unfolding patched get_or
  patched_twice ms =
      let known = tool_call_ids loads ms in
      let q = enqueue ms [] in
      let out = patch_from loads known ms q in
      rw (ids_of_patched known ms q) (
        patch_again known ms q (enqueue out []) (λ i k. k) (enqueue-IsKeyed ms [] (λ i. tt))
          (λ i k. enqueue-results_of out [] i))

module _ {J : Type 0} (loads : String → Option (Args J)) ⦃e : Eq (Message J)⦄ where
  -- Messages that were patched once are not patched again.
  pub patch_once :
      (ms : List (Message J)) → build_patched_messages loads (model_messages loads ms) ≡ none
  unfolding build_patched_messages
  patch_once ms =
      rw (model_messages_lem loads ms, patched_twice loads ms, same_all_refl (patched loads ms))
        refl
