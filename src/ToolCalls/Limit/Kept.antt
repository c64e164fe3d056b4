-- ===== src/ToolCalls/Limit/Kept.antt =====
-- The tool calls that `_truncate_task_calls` leaves.
use deer_seek_backend.Prelude.{
  ◌≡◌, ◌∙◌, refl, sym, leb→le, ◌++◌, ap, arith, ◌≤◌, ◌<◌, ℕ, zero, suc, true, false, not, Option,
  none, some, List, [], ◌∷◌, string_eq, nat_eq, keep, take, drop, length, contains, leb,
  if◌then◌else◌, All, All-drop, Bool-cases, inl, inr, option_eq,
}
use deer_seek_backend.ToolCalls.{Call, AiMessage, Message, ai}
use deer_seek_backend.ToolCalls.Limit.{
  clone_ai_message_with_tool_calls, is_task, task_indices, without_indices, truncated,
  truncate_message, truncate_task_calls,
}

not_among : (i : ℕ) (ks : List ℕ) → All (λ k. suc i ≤ k) ks → contains i ks ≡ false
not_among i [] all = refl
not_among i (k ∷ ks) (here, all) = let rest = not_among i ks all in ground (arith, rest, here)

module _ {J : Type 0} where
  -- Of the calls from an index on, the tasks up to the limit are left, and all other calls.
  unfoldable Keeps : ℕ → ℕ → List (Call J) → Type 0
  Keeps limit i cs =
      let out = without_indices (drop limit (task_indices i cs)) i cs in
      (keep is_task out ≡ take limit (keep is_task cs))
      × (keep (λ c. not (is_task c)) out ≡ keep (λ c. not (is_task c)) cs)

Keeps-task_indices : (J : Type 0) (limit i : ℕ) → Keeps {J = J} limit i []
unfolding Keeps without_indices
Keeps-task_indices J zero i = (refl, refl)
Keeps-task_indices J (suc limit) i = (refl, refl)

module _ {J : Type 0} where
  task_indices-above : (i j : ℕ) (cs : List (Call J)) → i ≤ j → All (λ k. i ≤ k) (task_indices j cs)
  unfolding task_indices
  task_indices-above i j [] le = tt
  task_indices-above i j (c ∷ cs) le = elim (Bool-cases (is_task c)) [
    | inl task ↦ rw task (le, task_indices-above i (suc j) cs (omega arith))
    | inr plain ↦ rw plain (task_indices-above i (suc j) cs (omega arith))
  ]

  without_passed :
      (i j : ℕ) (ks : List ℕ) (cs : List (Call J))
      → i < j
      → without_indices (i ∷ ks) j cs ≡ without_indices ks j cs
  unfolding without_indices
  without_passed i j ks [] lt = refl
  without_passed i j ks (c ∷ cs) lt =
      let rest = without_passed i (suc j) ks cs (omega arith) in
      let apart : contains j (i ∷ ks) ≡ contains j ks = ground arith in
      let passed = without_indices (i ∷ ks) (suc j) cs in
      ap (λ b. if b then passed else c ∷ passed) apart
      ∙ ap (λ r. if contains j ks then r else c ∷ r) rest

  past_limit :
      (limit i : ℕ) (cs : List (Call J)) → contains i (drop limit (task_indices (suc i) cs)) ≡ false
  past_limit limit i cs = not_among i (drop limit (task_indices (suc i) cs)) (
      All-drop (λ k. suc i ≤ k) limit (task_indices (suc i) cs)
        (task_indices-above (suc i) (suc i) cs (omega arith)))

  indices_task :
      (i : ℕ) (c : Call J) (cs : List (Call J))
      → is_task c ≡ true
      → task_indices i (c ∷ cs) ≡ i ∷ task_indices (suc i) cs
  unfolding task_indices
  indices_task i c cs task = rw (task, task_indices) refl

  indices_plain :
      (i : ℕ) (c : Call J) (cs : List (Call J))
      → is_task c ≡ false
      → task_indices i (c ∷ cs) ≡ task_indices (suc i) cs
  unfolding task_indices
  indices_plain i c cs plain = rw (plain, task_indices) refl

  without_kept :
      (ks : List ℕ) (i : ℕ) (c : Call J) (cs : List (Call J))
      → contains i ks ≡ false
      → without_indices ks i (c ∷ cs) ≡ c ∷ without_indices ks (suc i) cs
  unfolding without_indices
  without_kept ks i c cs h = rw (h, without_indices) refl

  without_first :
      (ks : List ℕ) (i : ℕ) (c : Call J) (cs : List (Call J))
      → without_indices (i ∷ ks) i (c ∷ cs) ≡ without_indices ks (suc i) cs
  unfolding without_indices
  without_first ks i c cs =
      let here : contains i (i ∷ ks) ≡ true = ground arith in
      let passed = without_indices (i ∷ ks) (suc i) cs in
      ap (λ b. if b then passed else c ∷ passed) here ∙ without_passed i (suc i) ks cs (omega arith)

  without_indices-Keeps : (limit i : ℕ) (cs : List (Call J)) → Keeps limit i cs
  unfolding Keeps
  without_indices-Keeps zero i [] = Keeps-task_indices J zero i
  without_indices-Keeps (suc limit) i [] = Keeps-task_indices J (suc limit) i
  without_indices-Keeps zero i (c ∷ cs) = elim (Bool-cases (is_task c)) [
    | inr plain ↦
        let (tasks, others) = without_indices-Keeps zero (suc i) cs in
        rw
          (
            indices_plain i c cs plain,
            without_kept (task_indices (suc i) cs) i c cs (past_limit zero i cs),
            plain,
          )
          (tasks, ap (λ xs. c ∷ xs) others)
    | inl task ↦
        let (tasks, others) = without_indices-Keeps zero (suc i) cs in
        rw (indices_task i c cs task, without_first (task_indices (suc i) cs) i c cs, task)
          (tasks, others)
  ]
  without_indices-Keeps (suc limit) i (c ∷ cs) = elim (Bool-cases (is_task c)) [
    | inr plain ↦
        let (tasks, others) = without_indices-Keeps (suc limit) (suc i) cs in
        rw
          (
            indices_plain i c cs plain,
            without_kept (drop (suc limit) (task_indices (suc i) cs)) i c cs
                (past_limit (suc limit) i cs),
            plain,
          )
          (tasks, ap (λ xs. c ∷ xs) others)
    | inl task ↦
        let (tasks, others) = without_indices-Keeps limit (suc i) cs in
        rw
          (
            indices_task i c cs task,
            without_kept (drop limit (task_indices (suc i) cs)) i c cs (past_limit limit i cs),
            task,
          )
          (ap (λ xs. c ∷ xs) tasks, others)
  ]

  length-task_indices :
      (i : ℕ) (cs : List (Call J)) → length (task_indices i cs) ≡ length (keep is_task cs)
  unfolding task_indices
  length-task_indices i [] = refl
  length-task_indices i (c ∷ cs) = elim (Bool-cases (is_task c)) [
    | inl task ↦ rw task (ap suc (length-task_indices (suc i) cs))
    | inr plain ↦ rw plain (length-task_indices (suc i) cs)
  ]

  take_whole : (n : ℕ) (cs : List (Call J)) → length cs ≤ n → take n cs ≡ cs
  take_whole zero [] le = refl
  take_whole (suc n) [] le = refl
  take_whole zero (c ∷ cs) le = absurd (omega arith)
  take_whole (suc n) (c ∷ cs) le = ap (λ xs. c ∷ xs) (take_whole n cs (omega arith))

  -- The calls that are left: the first tasks up to the limit, and all others.
  pub record IsLimited (limit : ℕ) (calls left : List (Call J)) : Type 0 where
    pub tasks : keep is_task left ≡ take limit (keep is_task calls)
    pub others : keep (λ c. not (is_task c)) left ≡ keep (λ c. not (is_task c)) calls

  unfoldable pub after_limit : Option (AiMessage J) → AiMessage J → AiMessage J
  after_limit none m = m
  after_limit (some n) m = n

  truncate_message-IsLimited :
      (limit : ℕ) (m : AiMessage J)
      → IsLimited limit m.tool_calls (after_limit (truncate_message limit m) m).tool_calls
  unfolding truncate_message truncated clone_ai_message_with_tool_calls after_limit Keeps
  truncate_message-IsLimited limit m =
      elim (Bool-cases (leb (length (task_indices 0 m.tool_calls)) limit)) [
        | inl few ↦
            let le = leb→le (length (task_indices 0 m.tool_calls)) limit few in
            rw few record {
              tasks = sym (
                  take_whole limit (keep is_task m.tool_calls)
                    (omega (arith, le, length-task_indices 0 m.tool_calls)));
              others = refl;
            }
        | inr many ↦
            let (tasks, others) = without_indices-Keeps limit 0 m.tool_calls in
            rw many record { tasks = tasks; others = others }
      ]

  -- After the middleware a response of the model has its first task calls, up to the limit, and all
  -- its other calls, each in their order, whatever messages were before it.
  pub truncate_task_calls-IsLimited :
      (limit : ℕ) (ms : List (Message J)) (m : AiMessage J)
      → IsLimited limit m.tool_calls
          (after_limit (truncate_task_calls limit (ms ++ ai m ∷ [])) m).tool_calls
  unfolding truncate_task_calls
  truncate_task_calls-IsLimited limit [] m = truncate_message-IsLimited limit m
  truncate_task_calls-IsLimited limit (a ∷ []) m = truncate_message-IsLimited limit m
  truncate_task_calls-IsLimited limit (a ∷ b ∷ ms) m =
      truncate_task_calls-IsLimited limit (b ∷ ms) m
