-- ===== src/Loops/Delivery.antt =====
-- The queue of pending warnings: it is bounded, each of its writes keeps its two maps in step, and a
-- warning that is queued is delivered to the next model call of its run.
use deer_seek_backend.Prelude.{
  ℕ, zero, suc, ◌≡◌, ◌≤◌, ◌+◌, ◌-◌, ap, ◌∙◌, String, true, not, List, [], ◌∷◌, ◌++◌, ◌==◌,
  string_eq, pair_eq, All, All-keep, subst, append_assoc, take, length, contains, without,
  contains-without, contains-append, length-keep-le, length-append, length-drop, keep-append,
  without_twice, length-without-lt, arith, beq_refl, append-nil,
}
use deer_seek_backend.Dict.{get_or, has, put}
use deer_seek_backend.Dict.Laws.{has-put, has-pop, get_or-put, get_or-pop}
use deer_seek_backend.Loops.{
  Config, Key, Pending, max_pending_warning_keys, max_pending_warnings_per_run, drop_key, drop_keys,
  prune, queue_warning, add_warning, newest_warnings, touch,
}

-- The two maps hold the same keys, each queue is short, and there are at most `n` of them.
pub record IsQueue (n : ℕ) (p : Pending) : Type 0 where
  pub same : (k : Key) → has p.warnings k ≡ contains k p.order
  pub short : (k : Key) → length (get_or p.warnings k []) ≤ max_pending_warnings_per_run
  pub few : length p.order ≤ n

pub drop_key-IsQueue : (n : ℕ) (k : Key) (p : Pending) → IsQueue n p → IsQueue n (drop_key k p)
unfolding drop_key
drop_key-IsQueue n k p h = record {
  same = λ j. ground (arith, h.same j, has-pop p.warnings k j, contains-without k j p.order);
  short = λ j. ground (arith, h.short j, get_or-pop p.warnings k j []);
  few = omega (arith, h.few, length-keep-le (λ j. not (j == k)) p.order);
}

pub drop_keys-IsQueue :
    (n : ℕ) (ks : List Key) (p : Pending) → IsQueue n p → IsQueue n (drop_keys ks p)
unfolding drop_keys
drop_keys-IsQueue n [] p h = h
drop_keys-IsQueue n (k ∷ ks) p h = drop_keys-IsQueue n ks (drop_key k p) (drop_key-IsQueue n k p h)

drop_key-fewer :
    (n : ℕ) (k : Key) (p : Pending)
    → contains k p.order ≡ true
    → IsQueue (suc n) p
    → IsQueue n (drop_key k p)
unfolding drop_key
drop_key-fewer n k p there h =
    let kept = drop_key-IsQueue (suc n) k p h in
    record {
      same = kept.same;
      short = kept.short;
      few = omega (arith, h.few, length-without-lt k p.order there);
    }

-- A queue that is one key too large is cut by the first candidate.
cut :
    (n o : ℕ) (ks : List Key) (p : Pending)
    → All (λ k. contains k p.order ≡ true) ks
    → length p.order ≤ n + o
    → o ≤ 1
    → o ≤ length ks
    → IsQueue (suc n) p
    → IsQueue n (drop_keys (take o ks) p)
unfolding drop_keys
cut n zero ks p there fits small some_ks h = record {
  same = h.same;
  short = h.short;
  few = omega (arith, fits);
}
cut n (suc zero) [] p there fits small some_ks h = absurd (omega (arith, some_ks))
cut n (suc zero) (k ∷ ks) p there fits small some_ks h = drop_key-fewer n k p there.0 h
cut n (suc (suc o)) ks p there fits small some_ks h = absurd (omega (arith, small))

kept_there :
    (k : Key) (xs ys : List Key)
    → All (λ j. contains j ys ≡ true) xs
    → All (λ j. contains j ys ≡ true) (without k xs)
kept_there k xs ys h = All-keep (λ j. contains j ys ≡ true) (λ j. not (j == k)) xs h

All-there : (xs : List Key) → All (λ j. contains j xs ≡ true) xs
All-there xs = from [] xs
  where
    from : (ys xs : List Key) → All (λ j. contains j (ys ++ xs) ≡ true) xs
    from ys [] = tt
    from ys (x ∷ xs) = (
      ground (arith, contains-append x ys (x ∷ xs), beq_refl x),
      subst (λ zs. All (λ j. contains j zs ≡ true) xs) (append_assoc ys (x ∷ []) xs)
          (from (ys ++ x ∷ []) xs),
    )

length-touch :
    (k : Key) (order : List Key) → length (touch k order) ≡ suc (length (without k order))
length-touch k order = omega (arith, length-append (without k order) (k ∷ []))

candidates : (k : Key) (order : List Key) → without k (touch k order) ≡ without k order
candidates k order =
    keep-append (λ j. not (j == k)) (without k order) (k ∷ [])
    ∙ rw (without_twice k order, beq_refl k) (append-nil (without k order))

length-newest : (ws : List String) → length (newest_warnings ws) ≤ max_pending_warnings_per_run
length-newest ws = omega (arith, length-drop (length ws - max_pending_warnings_per_run) ws)

module _ (c : Config) (k : Key) (w : String) (p : Pending) where
  written : Pending
  written = record {
    warnings = put p.warnings k (newest_warnings (add_warning w (get_or p.warnings k [])));
    order = touch k p.order;
  }

  written-IsQueue : (n : ℕ) → IsQueue n p → IsQueue (suc n) written
  unfolding written
  written-IsQueue n h = record {
    same = λ j. ground (
      arith,
      h.same j,
      has-put p.warnings k j (newest_warnings (add_warning w (get_or p.warnings k []))),
      contains-append j (without k p.order) (k ∷ []),
      contains-without k j p.order,
    );
    short = λ j. ground (
      arith,
      h.short j,
      get_or-put p.warnings k j (newest_warnings (add_warning w (get_or p.warnings k []))) [],
      length-newest (add_warning w (get_or p.warnings k [])),
    );
    few = omega (arith, h.few, length-touch k p.order, length-keep-le (λ j. not (j == k)) p.order);
  }

  -- A warning that is queued leaves a bounded queue.
  pub queue_warning-IsQueue :
      IsQueue (max_pending_warning_keys c) p
      → IsQueue (max_pending_warning_keys c) (queue_warning c k w p)
  unfolding queue_warning prune written
  queue_warning-IsQueue h =
      let n = max_pending_warning_keys c in
      let h' : IsQueue (suc n) written = written-IsQueue n h in
      let o = length written.order - n in
      cut n o (without k written.order) written
        (kept_there k written.order written.order (All-there written.order)) (omega arith)
        (omega (arith, h'.few))
        (omega (arith, length-touch k p.order, ap length (candidates k p.order))) h'
