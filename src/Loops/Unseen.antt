-- ===== src/Loops/Unseen.antt =====
-- Sets of calls that are new to the history of a thread (loop_detection_middleware.py).
use deer_seek_backend.Prelude.{
  ℕ, zero, suc, ◌≡◌, ◌≤◌, ◌+◌, ◌-◌, ◌∙◌, refl, String, true, false, List, [], ◌∷◌, ◌++◌, ◌==◌,
  string_eq, nat_eq, length, count, contains, All, drop, ltb, arith, beq_refl, eq_iff, Bool-cases,
  inl, inr, if◌then◌else◌,
}
use deer_seek_backend.Dict.{has}
use deer_seek_backend.Dict.Laws.{has-put}
use deer_seek_backend.Loops.{Config, Loops, touch_thread}
use deer_seek_backend.Loops.Track.{trim, record_hash, hashes_of}
use deer_seek_backend.Loops.Stop.{record_hash-hashes}

count-drop : (n : ℕ) (k : String) (hs : List String) → count k (drop n hs) ≤ count k hs
count-drop zero k hs = omega arith
count-drop (suc n) k [] = omega arith
count-drop (suc n) k (h ∷ hs) = ground (arith, count-drop n k hs)

count_snoc :
    (k h : String) (hs : List String)
    → count k (hs ++ h ∷ []) ≡ count k hs + (if h == k then 1 else 0)
count_snoc k h [] = ground arith
count_snoc k h (x ∷ hs) = ground (arith, count_snoc k h hs)

pub count-trim :
    (w : ℕ) (k h : String) (hs : List String)
    → count k (trim w (hs ++ h ∷ [])) ≤ count k hs + (if h == k then 1 else 0)
count-trim zero k h hs = omega (arith, count_snoc k h hs)
count-trim (suc w) k h hs = elim (Bool-cases (ltb (suc w) (length (hs ++ h ∷ [])))) [
  | inl long ↦ rw long (
      omega (arith, count_snoc k h hs, count-drop (length (hs ++ h ∷ []) - suc w) k (hs ++ h ∷ [])))
  | inr short ↦ rw short (omega (arith, count_snoc k h hs))
]

pub record_hash-tool_freq :
    (c : Config) (t h : String) (s : Loops)
    → has s.history t ≡ true
    → (record_hash c t h s).tool_freq ≡ s.tool_freq
unfolding record_hash touch_thread
record_hash-tool_freq c t h s tracked = rw tracked refl

pub record_hash-has :
    (c : Config) (t h : String) (s : Loops) → has (record_hash c t h s).history t ≡ true
unfolding record_hash
record_hash-has c t h s =
    let touched = touch_thread c t s in
    has-put touched.history t t (trim c.window_size (hashes_of t touched ++ h ∷ []))
    ∙ rw (beq_refl t) refl

-- The thread has a history, in which none of the hashes is.
pub record Ready (t : String) (hs : List String) (s : Loops) : Type 0 where
  pub tracked : has s.history t ≡ true
  pub unseen : All (λ h. count h (hashes_of t s) ≡ 0) hs

pub unseen_after :
    (c : Config) (t h : String) (hs : List String) (s : Loops)
    → contains h hs ≡ false
    → All (λ k. count k (hashes_of t s) ≡ 0) hs
    → All (λ k. count k (hashes_of t (record_hash c t h s)) ≡ 0) hs
unseen_after c t h [] s other all = tt
unseen_after c t h (k ∷ hs) s other (none_yet, all) = (
  rw (record_hash-hashes c t h s) (
      ground (
        arith,
        count-trim c.window_size k h (hashes_of t s),
        none_yet,
        other,
        eq_iff h k,
        eq_iff k h,
      )),
  unseen_after c t h hs s (ground (arith, other)) all,
)
