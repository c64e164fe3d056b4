-- ===== src/Loops/Invariant.antt =====
-- Every hook of the middleware keeps its state bounded.
use deer_seek_backend.Prelude.{
  ℕ, zero, suc, ◌≡◌, ◌≤◌, ◌-◌, refl, ◌∙◌, String, true, List, [], ◌∷◌, ◌++◌, string_eq, pair_eq,
  keep, length, contains, arith, Bool-cases, Option-cases, inl, inr, eq_iff, ltb, length-drop,
}
use deer_seek_backend.Dict.{Dict, get, get_or, has, put, pop, move_to_end}
use deer_seek_backend.Dict.Laws.{
  has-put, has-pop, get_or-put, get-move_to_end, length-put, length-move_to_end, put-Distinct,
  move_to_end-Distinct, put_absent,
}
use deer_seek_backend.Loops.{Config, Loops, evict_if_needed, touch_thread}
use deer_seek_backend.Loops.Track.{store_set, trim, forget_old, record_hash, hashes_of}
use deer_seek_backend.Loops.Bounds.{
  IsTracked, IsBounded, Within, evict_loop-IsTracked, evict_loop-length, ends_with, ends_with-has,
  ends_with-append, evict_loop-ends_with,
}

Within-more :
    {V : Type 0} (d : Dict String V) (t : String) (x : List String) (h : Dict String (List String))
    → Within d h
    → Within d (put h t x)
Within-more d t x h w j = ground (arith, w j, has-put h t j x)

Within-put :
    {V : Type 0} (d : Dict String V) (t : String) (v : V) (h : Dict String (List String))
    → has h t ≡ true
    → Within d h
    → Within (put d t v) h
Within-put d t v h there w j = ground (arith, w j, there, has-put d t j v, eq_iff t j)

pub Within-less :
    {V : Type 0} (d : Dict String V) (t : String) (h : Dict String (List String))
    → Within d h
    → Within (pop d t) h
Within-less d t h w j = ground (arith, w j, has-pop d t j)

has-move_to_end : (h : Dict String (List String)) (t j : String) → has (move_to_end h t) j ≡ has h j
unfolding has
has-move_to_end h t j = rw (has, get-move_to_end h t j) refl

pub get_or-move_to_end :
    (h : Dict String (List String)) (t j : String) → get_or (move_to_end h t) j [] ≡ get_or h j []
unfolding get_or
get_or-move_to_end h t j = rw (get_or, get-move_to_end h t j) refl

module _ (c : Config) (t : String) (s : Loops) (k : IsBounded c s)
    (some_threads : 1 ≤ c.max_tracked_threads) where
  moved : Loops
  moved = record s { history = move_to_end s.history t }

  opened : Loops
  opened = record s { history = put s.history t [] }

  moved-IsBounded : IsBounded c moved
  unfolding moved
  moved-IsBounded = record {
    tracked = record {
      distinct = move_to_end-Distinct s.history t k.tracked.distinct;
      windows = λ i. rw (get_or-move_to_end s.history t i) (k.tracked.windows i);
      warned = λ i. rw (has-move_to_end s.history t i) (k.tracked.warned i);
      counted = λ i. rw (has-move_to_end s.history t i) (k.tracked.counted i);
      freq_warned = λ i. rw (has-move_to_end s.history t i) (k.tracked.freq_warned i);
      queue = k.tracked.queue;
    };
    threads = rw (length-move_to_end s.history t k.tracked.distinct) k.threads;
  }

  opened-IsTracked : IsTracked c opened
  unfolding opened
  opened-IsTracked = record {
    distinct = put-Distinct s.history t [] k.tracked.distinct;
    windows = λ i. ground (arith, get_or-put s.history t i [] [], k.tracked.windows i);
    warned = Within-more s.warned t [] s.history k.tracked.warned;
    counted = Within-more s.tool_freq t [] s.history k.tracked.counted;
    freq_warned = Within-more s.tool_freq_warned t [] s.history k.tracked.freq_warned;
    queue = k.tracked.queue;
  }

  -- The thread is tracked afterwards, whatever was evicted for it.
  touch_thread-IsBounded :
      IsBounded c (touch_thread c t s) × (has (touch_thread c t s).history t ≡ true)
  unfolding touch_thread evict_if_needed opened moved
  touch_thread-IsBounded = elim (Bool-cases (has s.history t)) [
    | inl there ↦ rw there (moved-IsBounded, has-move_to_end s.history t t ∙ there)
    | inr new ↦
        let n = length opened.history in
        let last : ends_with t opened.history ≡ true =
          rw (put_absent s.history t [] new) (ends_with-append t [] s.history) in
        rw new (
          record {
            tracked = evict_loop-IsTracked c n opened opened-IsTracked;
            threads = evict_loop-length c n opened (omega arith);
          },
          ends_with-has t _ (evict_loop-ends_with c t n opened some_threads last),
        )
  ]

pub length-trim : (w : ℕ) (hs : List String) → 1 ≤ w → length (trim w hs) ≤ w
length-trim zero hs h = absurd (omega (arith, h))
length-trim (suc w) hs h = elim (Bool-cases (ltb (suc w) (length hs))) [
  | inl long ↦ rw long (omega (arith, length-drop (length hs - suc w) hs))
  | inr fits ↦ rw fits (ground (arith, fits))
]

store_set-Within :
    (t : String) (hs : List String) (d h : Dict String (List String))
    → has h t ≡ true
    → Within d h
    → Within (store_set t hs d) h
unfolding store_set
store_set-Within t [] d h there w = Within-less d t h w
store_set-Within t (x ∷ hs) d h there w = Within-put d t (x ∷ hs) h there w

forget_old-Within :
    (t : String) (hist : List String) (d h : Dict String (List String))
    → has h t ≡ true
    → Within d h
    → Within (forget_old t hist d) h
unfolding forget_old
forget_old-Within t hist d h there w = elim (Option-cases (get d t)) [
  | inl none_yet ↦ rw (none_yet, forget_old) w
  | inr (hashes, found) ↦
      rw (found, forget_old) (store_set-Within t (keep (λ x. contains x hist) hashes) d h there w)
]

module _ (c : Config) (some_window : 1 ≤ c.window_size) where
  -- A thread that is tracked gets a history and a set of warned hashes.
  rewritten-IsBounded :
      (t : String) (hist : List String) (warned : Dict String (List String)) (s : Loops)
      → IsBounded c s
      → has s.history t ≡ true
      → length hist ≤ c.window_size
      → Within warned s.history
      → IsBounded c (record s { history = put s.history t hist; warned = warned })
  rewritten-IsBounded t hist warned s k there short w = record {
    tracked = record {
      distinct = put-Distinct s.history t hist k.tracked.distinct;
      windows = λ i. ground (arith, get_or-put s.history t i hist [], k.tracked.windows i, short);
      warned = Within-more warned t hist s.history w;
      counted = Within-more s.tool_freq t hist s.history k.tracked.counted;
      freq_warned = Within-more s.tool_freq_warned t hist s.history k.tracked.freq_warned;
      queue = k.tracked.queue;
    };
    threads = ground (arith, k.threads, length-put s.history t hist, there);
  }

  module _ (t : String) (h : String) (s : Loops) (k : IsBounded c s)
      (some_threads : 1 ≤ c.max_tracked_threads) where
    pub record_hash-IsBounded :
        IsBounded c (record_hash c t h s) × (has (record_hash c t h s).history t ≡ true)
    unfolding record_hash
    record_hash-IsBounded =
        let s' = touch_thread c t s in
        let (k', there) = touch_thread-IsBounded c t s k some_threads in
        let hist = trim c.window_size (hashes_of t s' ++ h ∷ []) in
        (
          rewritten-IsBounded t hist (forget_old t hist s'.warned) s' k' there
              (length-trim c.window_size (hashes_of t s' ++ h ∷ []) some_window)
              (forget_old-Within t hist s'.warned s'.history there k'.tracked.warned),
          ground (arith, has-put s'.history t t hist, eq_iff t t),
        )

  module _ (t : String) where
    pub tool_freq-IsBounded :
        (v : Dict String ℕ) (s : Loops)
        → has s.history t ≡ true
        → IsBounded c s
        → IsBounded c (record s { tool_freq = put s.tool_freq t v })
    tool_freq-IsBounded v s there k = record {
      tracked = record {
        distinct = k.tracked.distinct;
        windows = k.tracked.windows;
        warned = k.tracked.warned;
        counted = Within-put s.tool_freq t v s.history there k.tracked.counted;
        freq_warned = k.tracked.freq_warned;
        queue = k.tracked.queue;
      };
      threads = k.threads;
    }

    pub freq_warned-IsBounded :
        (v : List String) (s : Loops)
        → has s.history t ≡ true
        → IsBounded c s
        → IsBounded c (record s { tool_freq_warned = put s.tool_freq_warned t v })
    freq_warned-IsBounded v s there k = record {
      tracked = record {
        distinct = k.tracked.distinct;
        windows = k.tracked.windows;
        warned = k.tracked.warned;
        counted = k.tracked.counted;
        freq_warned = Within-put s.tool_freq_warned t v s.history there k.tracked.freq_warned;
        queue = k.tracked.queue;
      };
      threads = k.threads;
    }

    pub warned-IsBounded :
        (v : List String) (s : Loops)
        → has s.history t ≡ true
        → IsBounded c s
        → IsBounded c (record s { warned = put s.warned t v })
    warned-IsBounded v s there k = record {
      tracked = record {
        distinct = k.tracked.distinct;
        windows = k.tracked.windows;
        warned = Within-put s.warned t v s.history there k.tracked.warned;
        counted = k.tracked.counted;
        freq_warned = k.tracked.freq_warned;
        queue = k.tracked.queue;
      };
      threads = k.threads;
    }
