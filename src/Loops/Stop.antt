-- ===== src/Loops/Stop.antt =====
-- The history that a set of calls is counted in, and the copies at its end
-- (loop_detection_middleware.py).
use deer_seek_backend.Prelude.{
  ℕ, zero, suc, ◌≡◌, ◌≤◌, ◌+◌, ◌-◌, refl, ap, sym, ◌∙◌, String, true, false, ◌||◌, not, List, [],
  ◌∷◌, ◌++◌, ◌==◌, string_eq, nat_eq, All, drop, length, count, arith, Bool-cases, inl, inr, ltb,
  subst, beq_refl, length-append, append_assoc,
}
use deer_seek_backend.Dict.{Dict, get, get_or, has, put}
use deer_seek_backend.Dict.Laws.{get_or-put, get_or_absent, put_absent}
use deer_seek_backend.Loops.{
  Config, Loops, touch_thread, evict_first, evict_loop, evict_if_needed, forget_thread,
}
use deer_seek_backend.Loops.Track.{trim, record_hash, hashes_of}
use deer_seek_backend.Loops.Invariant.{get_or-move_to_end}

-- The thread has no history, or an empty one.
abbrev Blank : String → Dict String (List String) → Type 0
Blank t = All (λ e. (not (e.0 == t) || length e.1 == 0) ≡ true)

Blank-get_or : (t : String) (h : Dict String (List String)) → Blank t h → get_or h t [] ≡ []
unfolding get_or get
Blank-get_or t [] b = refl
Blank-get_or t ((i, []) ∷ h) b = ground (arith, Blank-get_or t h b.1)
Blank-get_or t ((i, x ∷ xs) ∷ h) b = ground (arith, Blank-get_or t h b.1, b.0)

Blank-absent :
    (t : String) (h : Dict String (List String)) → has h t ≡ false → Blank t (h ++ (t, []) ∷ [])
unfolding has get
Blank-absent t [] new = (ground arith, tt)
Blank-absent t ((i, x) ∷ h) new = (ground (arith, new), Blank-absent t h (ground (arith, new)))

evict_first-Blank :
    (t : String) (h : Dict String (List String)) (s : Loops)
    → s.history ≡ h
    → Blank t h
    → Blank t (evict_first h s).history
unfolding evict_first forget_thread
evict_first-Blank t [] s e b = subst (Blank t) (sym e) b
evict_first-Blank t ((i, x) ∷ h) s e b = b.1

evict_loop-Blank :
    (c : Config) (t : String) (n : ℕ) (s : Loops)
    → Blank t s.history
    → Blank t (evict_loop c n s).history
unfolding evict_loop
evict_loop-Blank c t zero s b = b
evict_loop-Blank c t (suc n) s b =
    elim (Bool-cases (ltb c.max_tracked_threads (length s.history))) [
      | inl over ↦ rw over (
          evict_loop-Blank c t n (evict_first s.history s) (evict_first-Blank t s.history s refl b))
      | inr fits ↦ rw fits b
    ]

touch_thread-hashes :
    (c : Config) (t : String) (s : Loops) → hashes_of t (touch_thread c t s) ≡ hashes_of t s
unfolding touch_thread evict_if_needed
touch_thread-hashes c t s = elim (Bool-cases (has s.history t)) [
  | inl there ↦ rw there (get_or-move_to_end s.history t t)
  | inr new ↦
      let opened = record s { history = put s.history t [] } in
      let blank : Blank t opened.history =
        rw (put_absent s.history t [] new) (Blank-absent t s.history new) in
      rw (new, get_or_absent s.history t [] new)
        (Blank-get_or t _ (evict_loop-Blank c t (length opened.history) opened blank))
]

-- The history that a set of calls is counted in.
pub record_hash-hashes :
    (c : Config) (t h : String) (s : Loops)
    → hashes_of t (record_hash c t h s) ≡ trim c.window_size (hashes_of t s ++ h ∷ [])
unfolding record_hash
record_hash-hashes c t h s =
    get_or-put (touch_thread c t s).history t t
      (trim c.window_size (hashes_of t (touch_thread c t s) ++ h ∷ [])) []
    ∙ rw (beq_refl t, touch_thread-hashes c t s) refl

unfoldable pub copies : ℕ → String → List String
copies zero h = []
copies (suc k) h = h ∷ copies k h

copies_snoc : (k : ℕ) (h : String) → copies k h ++ h ∷ [] ≡ copies (suc k) h
unfolding copies
copies_snoc zero h = refl
copies_snoc (suc k) h = ap (◌∷◌ h) (copies_snoc k h)

length-copies : (k : ℕ) (h : String) → length (copies k h) ≡ k
unfolding copies
length-copies zero h = refl
length-copies (suc k) h = omega (arith, length-copies k h)

pub count-copies : (k : ℕ) (h : String) (pre : List String) → k ≤ count h (pre ++ copies k h)
unfolding copies
count-copies zero h [] = omega arith
count-copies (suc k) h [] = ground (arith, count-copies k h [], beq_refl h)
count-copies k h (x ∷ pre) = ground (arith, count-copies k h pre)

-- The list ends in `k` copies.
abbrev pub EndsIn : ℕ → String → List String → Type 0
EndsIn k h hs = (pre : List String) × (hs ≡ pre ++ copies k h)

drop_within :
    {A : Type 0} (n : ℕ) (pre ys : List A) → n ≤ length pre → drop n (pre ++ ys) ≡ drop n pre ++ ys
drop_within zero pre ys h = refl
drop_within (suc n) [] ys h = absurd (omega (arith, h))
drop_within (suc n) (x ∷ pre) ys h = drop_within n pre ys (omega (arith, h))

pub trim-EndsIn :
    (w k : ℕ) (h : String) (hs : List String)
    → suc k ≤ w
    → EndsIn k h hs
    → EndsIn (suc k) h (trim w (hs ++ h ∷ []))
trim-EndsIn zero k h hs small e = absurd (omega (arith, small))
trim-EndsIn (suc w) k h hs small (pre, e) =
    let grown : hs ++ h ∷ [] ≡ pre ++ copies (suc k) h =
      rw e (append_assoc pre (copies k h) (h ∷ []) ∙ ap (λ ys. pre ++ ys) (copies_snoc k h)) in
    let len : length (pre ++ copies (suc k) h) ≡ length pre + suc k =
      omega (arith, length-append pre (copies (suc k) h), length-copies (suc k) h) in
    elim (Bool-cases (ltb (suc w) (length (hs ++ h ∷ [])))) [
      | inr fits ↦ rw fits (pre, grown)
      | inl long ↦ rw long (
        drop (length (hs ++ h ∷ []) - suc w) pre,
        rw grown (
            drop_within (length (pre ++ copies (suc k) h) - suc w) pre (copies (suc k) h)
              (omega (arith, len, small))),
      )
    ]
