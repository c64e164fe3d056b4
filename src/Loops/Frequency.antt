-- ===== src/Loops/Frequency.antt =====
-- The second layer of loop_detection_middleware.py counts a tool's calls over the runs of a thread.
use deer_seek_backend.Prelude.{
  ℕ, suc, ◌≡◌, ◌≤◌, ◌<◌, ◌+◌, ◌∙◌, refl, sym, ap, String, Bool, true, false, not, ◌&&◌, List, [],
  ◌∷◌, ◌++◌, ◌==◌, string_eq, nat_eq, length, count, contains, map, Distinct, leb, arith, beq_refl,
  Bool-cases, inl, inr,
}
use deer_seek_backend.Dict.{get_or, has, put}
use deer_seek_backend.Dict.Laws.{get_or-put}
use deer_seek_backend.Loops.{Config, Loops, Runtime}
use deer_seek_backend.Loops.Track.{
  ToolCall, Verdict, quiet, warn, stop, record_hash, count_call, calls_of, limits, hashes_of,
  freq_warned, check_freq, check,
}
use deer_seek_backend.Loops.Unseen.{
  count-trim, record_hash-tool_freq, record_hash-has, Ready, unseen_after,
}
use deer_seek_backend.Loops.Hooks.{before_agent, after_agent}
use deer_seek_backend.Loops.Stop.{record_hash-hashes}
use deer_seek_backend.Loops.Limits.{calls_of-count_call, check-history}

abbrev pub is_stop : Verdict → Bool
is_stop quiet = false
is_stop (warn text) = false
is_stop (stop text) = true

abbrev pub one_call : {J : Type 0} → String → J → List (ToolCall J)
one_call name args = record { name = name; args = args } ∷ []

-- The model calls a tool with some arguments, for which the hash of the calls is given; then its run
-- ends, and the next one starts.
pub record Round (J : Type 0) : Type 0 where
  pub hash : String
  pub args : J
  pub ended : Runtime
  pub started : Runtime

abbrev pub hashes : {J : Type 0} → List (Round J) → List String
hashes = map (λ r. r.hash)

module _ {J : Type 0} (str : ℕ → String) (c : Config) (t : String) where
  check_freq_once :
      (tc : ToolCall J) (s : Loops)
      → (tc.name == "") ≡ false
      → (calls_of t (check_freq str c t (tc ∷ []) s).1 tc.name ≡ suc (calls_of t s tc.name))
        × (is_stop (check_freq str c t (tc ∷ []) s).0
            ≡ leb (limits c tc.name).1 (suc (calls_of t s tc.name)))
  unfolding check_freq
  check_freq_once tc s named =
      let counted = calls_of-count_call t tc.name s in
      let s' = count_call t tc.name s in
      elim (Bool-cases (leb (limits c tc.name).1 (suc (calls_of t s tc.name)))) [
        | inl over ↦ rw (named, counted, over) (counted, refl)
        | inr below ↦
            elim (Bool-cases (
              leb (limits c tc.name).0 (suc (calls_of t s tc.name))
              && not (freq_warned t s' tc.name))) [
                | inl warns ↦ rw (named, counted, below, warns) (counted, refl)
                | inr passes ↦ rw (named, counted, below, passes) (counted, refl)
              ]
      ]

  -- A set of one call that is new to the history reaches the second layer.
  check_once :
      (h : String) (tc : ToolCall J) (s : Loops)
      → 1 < c.warn_threshold
      → 1 < c.hard_limit
      → (tc.name == "") ≡ false
      → has s.history t ≡ true
      → count h (hashes_of t s) ≡ 0
      → (calls_of t (check str c t h (tc ∷ []) s).1 tc.name ≡ suc (calls_of t s tc.name))
        × (is_stop (check str c t h (tc ∷ []) s).0
            ≡ leb (limits c tc.name).1 (suc (calls_of t s tc.name)))
  unfolding check
  check_once h tc s warns stops named tracked unseen =
      let s' = record_hash c t h s in
      let opened = record s' { tool_freq = put s'.tool_freq t (get_or s'.tool_freq t []) } in
      let few : count h (hashes_of t s') ≤ 1 =
        rw (record_hash-hashes c t h s)
          (ground (arith, count-trim c.window_size h h (hashes_of t s), unseen)) in
      let no_stop : leb c.hard_limit (count h (hashes_of t s')) ≡ false = ground (arith, few) in
      let no_warning : leb c.warn_threshold (count h (hashes_of t s')) ≡ false =
        ground (arith, few) in
      let same : calls_of t opened tc.name ≡ calls_of t s tc.name =
        ap (λ d. get_or d tc.name 0)
          (get_or-put s'.tool_freq t t (get_or s'.tool_freq t []) [] ∙ rw (beq_refl t) refl)
        ∙ ap (λ f. get_or (get_or f t []) tc.name 0) (record_hash-tool_freq c t h s tracked) in
      rw (no_stop, no_warning, sym same) (check_freq_once tc opened named)

  unfoldable pub round : String → Round J → Loops → Loops
  round name r s =
      before_agent r.started (after_agent r.ended (check str c t r.hash (one_call name r.args) s).1)

  unfoldable pub rounds : String → List (Round J) → Loops → Loops
  unfolding round
  rounds name [] s = s
  rounds name (r ∷ rs) s = rounds name rs (round name r s)

  round-history :
      (name : String) (r : Round J) (s : Loops)
      → (round name r s).history ≡ (record_hash c t r.hash s).history
  unfolding round before_agent after_agent
  round-history name r s = check-history str c t r.hash (one_call name r.args) s

  round-Ready :
      (name : String) (r : Round J) (hs : List String) (s : Loops)
      → contains r.hash hs ≡ false
      → Ready t (r.hash ∷ hs) s
      → Ready t hs (round name r s)
  round-Ready name r hs s other ready = record {
    tracked = rw (round-history name r s) (record_hash-has c t r.hash s);
    unseen = rw (round-history name r s) (unseen_after c t r.hash hs s other ready.unseen.1);
  }

module _ {J : Type 0} (str : ℕ → String) (c : Config) (t name : String) where
  round-calls :
      (r : Round J) (hs : List String) (s : Loops)
      → 1 < c.warn_threshold
      → 1 < c.hard_limit
      → (name == "") ≡ false
      → Ready t (r.hash ∷ hs) s
      → calls_of t (round str c t name r s) name ≡ suc (calls_of t s name)
  unfolding round before_agent after_agent
  round-calls r hs s warns stops named ready =
      (check_once str c t r.hash (record { name = name; args = r.args }) s warns stops named
        ready.tracked ready.unseen.0).0

  rounds-calls :
      (rs : List (Round J)) (left : List String) (s : Loops)
      → 1 < c.warn_threshold
      → 1 < c.hard_limit
      → (name == "") ≡ false
      → Distinct (hashes rs ++ left)
      → Ready t (hashes rs ++ left) s
      → (calls_of t (rounds str c t name rs s) name ≡ length rs + calls_of t s name)
        × Ready t left (rounds str c t name rs s)
  unfolding rounds
  rounds-calls [] left s warns stops named distinct ready = (omega arith, ready)
  rounds-calls (r ∷ rs) left s warns stops named distinct ready =
      let (total, after) =
        rounds-calls rs left (round str c t name r s) warns stops named distinct.1
          (round-Ready str c t name r (hashes rs ++ left) s distinct.0 ready) in
      (omega (arith, total, round-calls r (hashes rs ++ left) s warns stops named ready), after)

  -- Let one tool be called in each of some runs of a thread that is tracked, each time with other
  -- arguments, new to its history, and let both thresholds for repetitions be above 1. Then a further
  -- call with new arguments stops its run exactly if it and the calls in all those runs and before
  -- reach the tool's limit: that a run ends and another starts resets nothing.
  pub calls_count_across_runs :
      (rs : List (Round J)) (h : String) (args : J) (s : Loops)
      → 1 < c.warn_threshold
      → 1 < c.hard_limit
      → (name == "") ≡ false
      → Distinct (hashes rs ++ h ∷ [])
      → Ready t (hashes rs ++ h ∷ []) s
      → is_stop (check str c t h (one_call name args) (rounds str c t name rs s)).0
        ≡ leb (limits c name).1 (suc (length rs + calls_of t s name))
  calls_count_across_runs rs h args s warns stops named distinct ready =
      let (total, after) = rounds-calls rs (h ∷ []) s warns stops named distinct ready in
      (check_once str c t h (record { name = name; args = args }) (rounds str c t name rs s) warns
        stops named after.tracked after.unseen.0).1
      ∙ ap (λ n. leb (limits c name).1 (suc n)) total
