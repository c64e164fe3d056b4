-- ===== src/Loops/Bounds.antt =====
-- The tracking state stays bounded: it has at most `max_tracked_threads` threads, none but those has an
-- entry in the other maps, and no history is longer than the window.
use deer_seek_backend.Prelude.{
  ℕ, zero, suc, ◌≡◌, ◌≤◌, ◌<◌, ◌+◌, ◌-◌, refl, ap, String, Bool, true, false, ◌||◌, not, List, [],
  ◌∷◌, ◌++◌, ◌==◌, string_eq, pair_eq, length, contains, arith, Bool-cases, inl, inr, eq_iff, subst,
  ltb, Distinct,
}
use deer_seek_backend.Dict.{Dict, keys, get, get_or, has, pop}
use deer_seek_backend.Dict.Laws.{has-pop}
use deer_seek_backend.Loops.{
  Config, Loops, max_pending_warning_keys, forget_thread, evict_first, evict_loop, keys_of,
}
use deer_seek_backend.Loops.Delivery.{IsQueue, drop_keys-IsQueue}
use deer_seek_backend.Loops.Track.{hashes_of}

-- Every key of `d` is one of `h`.
abbrev pub Within : {V W : Type 0} → Dict String V → Dict String W → Type 0
Within d h = (t : String) → (not (has d t) || has h t) ≡ true

pub record IsTracked (c : Config) (s : Loops) : Type 0 where
  pub distinct : Distinct (keys s.history)
  pub windows : (t : String) → length (hashes_of t s) ≤ c.window_size
  pub warned : Within s.warned s.history
  pub counted : Within s.tool_freq s.history
  pub freq_warned : Within s.tool_freq_warned s.history
  pub queue : IsQueue (max_pending_warning_keys c) s.pending

pub record IsBounded (c : Config) (s : Loops) : Type 0 where
  pub tracked : IsTracked c s
  pub threads : length s.history ≤ c.max_tracked_threads

Within-pop :
    {V : Type 0} (d : Dict String V) (t : String) (x : List String) (h : Dict String (List String))
    → Within d ((t, x) ∷ h)
    → Within (pop d t) h
unfolding has get
Within-pop d t x h w j = ground (arith, w j, has-pop d t j)

absent_short :
    (t : String) (h : Dict String (List String)) → contains t (keys h) ≡ false → get_or h t [] ≡ []
unfolding get_or get
absent_short t [] e = refl
absent_short t ((i, x) ∷ h) e = ground (arith, absent_short t h)

-- The window of a thread, and its bound after a thread before it has gone.
window_tail :
    (n : ℕ) (t i : String) (x : List String) (h : Dict String (List String))
    → contains t (keys h) ≡ false
    → length (get_or ((t, x) ∷ h) i []) ≤ n
    → length (get_or h i []) ≤ n
unfolding get_or get
window_tail n t i x h new b = ground (arith, b, absent_short t h, eq_iff t i)

evict_first-IsTracked :
    (c : Config) (h : Dict String (List String)) (s : Loops)
    → s.history ≡ h
    → IsTracked c s
    → IsTracked c (evict_first h s)
unfolding evict_first forget_thread
evict_first-IsTracked c [] s e k = k
evict_first-IsTracked c ((t, x) ∷ h) s e k =
    let d : Distinct (keys ((t, x) ∷ h)) = subst (λ z. Distinct (keys z)) e k.distinct in
    record {
      distinct = d.1;
      windows = λ i.
          window_tail c.window_size t i x h d.0
            (subst (λ z. length (get_or z i []) ≤ c.window_size) e (k.windows i));
      warned = Within-pop s.warned t x h (subst (λ z. Within s.warned z) e k.warned);
      counted = Within-pop s.tool_freq t x h (subst (λ z. Within s.tool_freq z) e k.counted);
      freq_warned =
          Within-pop s.tool_freq_warned t x h
            (subst (λ z. Within s.tool_freq_warned z) e k.freq_warned);
      queue =
          drop_keys-IsQueue (max_pending_warning_keys c) (keys_of t s.pending) s.pending k.queue;
    }

length-evict_first :
    (h : Dict String (List String)) (s : Loops)
    → s.history ≡ h
    → length (evict_first h s).history ≡ length h - 1
unfolding evict_first forget_thread
length-evict_first [] s e = ap length e
length-evict_first ((t, x) ∷ h) s e = omega arith

pub evict_loop-IsTracked :
    (c : Config) (n : ℕ) (s : Loops) → IsTracked c s → IsTracked c (evict_loop c n s)
unfolding evict_loop
evict_loop-IsTracked c zero s k = k
evict_loop-IsTracked c (suc n) s k =
    elim (Bool-cases (ltb c.max_tracked_threads (length s.history))) [
      | inl over ↦ rw over (
          evict_loop-IsTracked c n (evict_first s.history s)
            (evict_first-IsTracked c s.history s refl k))
      | inr fits ↦ rw fits k
    ]

-- The fuel is enough: the loop ends with no thread too many.
pub evict_loop-length :
    (c : Config) (n : ℕ) (s : Loops)
    → length s.history ≤ c.max_tracked_threads + n
    → length (evict_loop c n s).history ≤ c.max_tracked_threads
unfolding evict_loop
evict_loop-length c zero s h = omega (arith, h)
evict_loop-length c (suc n) s h = elim (Bool-cases (ltb c.max_tracked_threads (length s.history))) [
  | inl over ↦ rw over (
      evict_loop-length c n (evict_first s.history s)
        (omega (arith, h, length-evict_first s.history s refl)))
  | inr fits ↦ rw fits (ground (arith, fits))
]

-- The last key of a dict.
abbrev pub ends_with : String → Dict String (List String) → Bool
ends_with t [] = false
ends_with t ((i, x) ∷ []) = i == t
ends_with t ((i, x) ∷ (j, y) ∷ h) = ends_with t ((j, y) ∷ h)

pub ends_with-has :
    (t : String) (h : Dict String (List String)) → ends_with t h ≡ true → has h t ≡ true
unfolding has get
ends_with-has t [] e = cc
ends_with-has t ((i, x) ∷ []) e = ground (arith, e)
ends_with-has t ((i, x) ∷ (j, y) ∷ h) e = ground (arith, ends_with-has t ((j, y) ∷ h) e)

pub ends_with-append :
    (t : String) (x : List String) (h : Dict String (List String))
    → ends_with t (h ++ (t, x) ∷ []) ≡ true
ends_with-append t x [] = ground (arith, eq_iff t t)
ends_with-append t x ((i, y) ∷ []) = ground (arith, eq_iff t t)
ends_with-append t x ((i, y) ∷ (j, z) ∷ h) = ends_with-append t x ((j, z) ∷ h)

evict_first-ends_with :
    (t : String) (h : Dict String (List String)) (s : Loops)
    → s.history ≡ h
    → 1 < length h
    → ends_with t h ≡ true
    → ends_with t (evict_first h s).history ≡ true
unfolding evict_first forget_thread
evict_first-ends_with t [] s e many h = absurd (omega (arith, many))
evict_first-ends_with t ((i, x) ∷ []) s e many h = absurd (omega (arith, many))
evict_first-ends_with t ((i, x) ∷ (j, y) ∷ rest) s e many h = h

pub evict_loop-ends_with :
    (c : Config) (t : String) (n : ℕ) (s : Loops)
    → 1 ≤ c.max_tracked_threads
    → ends_with t s.history ≡ true
    → ends_with t (evict_loop c n s).history ≡ true
unfolding evict_loop
evict_loop-ends_with c t zero s some_threads h = h
evict_loop-ends_with c t (suc n) s some_threads h =
    elim (Bool-cases (ltb c.max_tracked_threads (length s.history))) [
      | inl over ↦ rw over (
          evict_loop-ends_with c t n (evict_first s.history s) some_threads
            (evict_first-ends_with t s.history s refl (ground (arith, over, some_threads)) h))
      | inr fits ↦ rw fits h
    ]
