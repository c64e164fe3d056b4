-- ===== src/Loops/Limits.antt =====
-- The limit of the first layer: what reaches it, and what cannot (loop_detection_middleware.py).
use deer_seek_backend.Prelude.{
  ℕ, zero, suc, ◌≡◌, ◌≤◌, ◌<◌, refl, sym, String, true, List, [], ◌∷◌, ◌++◌, string_eq, nat_eq,
  length, count, arith, leb, beq_refl, append-nil,
}
use deer_seek_backend.Dict.{get_or, put}
use deer_seek_backend.Dict.Laws.{get_or-put}
use deer_seek_backend.Loops.{Config, Loops}
use deer_seek_backend.Loops.Track.{
  ToolCall, stop, trim, hard_stop_msg, record_hash, count_call, calls_of, hashes_of, check_freq,
  check,
}
use deer_seek_backend.Loops.Invariant.{length-trim}
use deer_seek_backend.Loops.Stop.{record_hash-hashes, EndsIn, copies, trim-EndsIn, count-copies}

length-count-le : (h : String) (hs : List String) → count h hs ≤ length hs
length-count-le h [] = omega arith
length-count-le h (x ∷ hs) = ground (arith, length-count-le h hs)

-- If the window is smaller than the limit, which the configuration admits, the count that is compared
-- with the limit never reaches it, so that repetition alone stops no run.
pub window_hides_limit :
    (c : Config) (t h : String) (s : Loops)
    → 1 ≤ c.window_size
    → c.window_size < c.hard_limit
    → count h (hashes_of t (record_hash c t h s)) < c.hard_limit
window_hides_limit c t h s some_window small = rw (record_hash-hashes c t h s) (
    omega (
      arith,
      small,
      length-count-le h (trim c.window_size (hashes_of t s ++ h ∷ [])),
      length-trim c.window_size (hashes_of t s ++ h ∷ []) some_window,
    ))

pub calls_of-count_call :
    (t name : String) (s : Loops) → calls_of t (count_call t name s) name ≡ suc (calls_of t s name)
unfolding count_call
calls_of-count_call t name s =
    let d = get_or s.tool_freq t [] in
    rw
      (
        get_or-put s.tool_freq t t (put d name (suc (calls_of t s name))) [],
        beq_refl t,
        get_or-put d name name (suc (calls_of t s name)) 0,
        beq_refl name,
      )
      refl

module _ {J : Type 0} (str : ℕ → String) (c : Config) (t : String) where
  check_freq-history :
      (tcs : List (ToolCall J)) (s : Loops) → (check_freq str c t tcs s).1.history ≡ s.history
  unfolding check_freq count_call
  check_freq-history [] s = refl
  check_freq-history (tc ∷ tcs) s =
      ground (arith, check_freq-history tcs s, check_freq-history tcs (count_call t tc.name s))

  pub check-history :
      (h : String) (tcs : List (ToolCall J)) (s : Loops)
      → (check str c t h tcs s).1.history ≡ (record_hash c t h s).history
  unfolding check
  check-history h tcs s =
      let s' = record_hash c t h s in
      ground (
        arith,
        check_freq-history tcs
            (record s' { tool_freq = put s'.tool_freq t (get_or s'.tool_freq t []) }),
      )

  -- The state after the same set of calls was made `n` times in a row.
  pub repeated : String → List (ToolCall J) → ℕ → Loops → Loops
  repeated h tcs zero s = s
  repeated h tcs (suc n) s = (check str c t h tcs (repeated h tcs n s)).1

  repeated-EndsIn :
      (h : String) (tcs : List (ToolCall J)) (n : ℕ) (s : Loops)
      → n ≤ c.window_size
      → EndsIn n h (hashes_of t (repeated h tcs n s))
  unfolding repeated copies
  repeated-EndsIn h tcs zero s small = (hashes_of t s, sym (append-nil (hashes_of t s)))
  repeated-EndsIn h tcs (suc n) s small =
      rw (check-history h tcs (repeated h tcs n s), record_hash-hashes c t h (repeated h tcs n s))
        (trim-EndsIn c.window_size n h (hashes_of t (repeated h tcs n s)) small
          (repeated-EndsIn h tcs n s (omega (arith, small))))

  -- If the window can hold as many calls as the limit, a set of calls that comes for the `hard_limit`-th
  -- time in a row stops the run, whatever was called before.
  pub repeats_stop :
      (h : String) (tcs : List (ToolCall J)) (n : ℕ) (s : Loops)
      → suc n ≡ c.hard_limit
      → c.hard_limit ≤ c.window_size
      → (check str c t h tcs (repeated h tcs n s)).0 ≡ stop hard_stop_msg
  unfolding check
  repeats_stop h tcs n s limit fits =
      let s' = repeated h tcs n s in
      let (pre, e) : EndsIn (suc n) h (hashes_of t (record_hash c t h s')) =
        rw (record_hash-hashes c t h s') (
          trim-EndsIn c.window_size n h (hashes_of t s') (omega (arith, limit, fits))
            (repeated-EndsIn h tcs n s (omega (arith, limit, fits)))) in
      let enough : suc n ≤ count h (hashes_of t (record_hash c t h s')) =
        rw e (count-copies (suc n) h pre) in
      let reached : leb c.hard_limit (count h (hashes_of t (record_hash c t h s'))) ≡ true =
        ground (arith, enough, limit) in
      rw reached refl
