-- ===== src/Journal/Flush.antt =====
-- The flush at the end of a run stores all events (journal.py).
use deer_seek_backend.Prelude.{
  ℕ, ◌≤◌, ◌<◌, ◌≡◌, refl, sym, subst, ◌∙◌, arith, Bool, true, false, List, [], ◌∷◌, append-nil,
  length, length-drop, All, Bool-cases, inl, inr,
}
use deer_seek_backend.Journal.Buffer.{Journal, is_empty, flush_take, flush_answer, flush_loop}
use deer_seek_backend.Journal.Order.{
  World, started, Reach, InOrder, flush_take-InOrder, flush_answer-InOrder, Reach-InOrder,
}

module _ {E : Type 0} where
  empty_nil : (es : List E) → is_empty es ≡ true → es ≡ []
  unfolding is_empty
  empty_nil [] h = refl
  empty_nil (e ∷ es) h = cc

  short_empty : (es : List E) → length es ≤ 0 → is_empty es ≡ true
  unfolding is_empty
  short_empty [] h = refl
  short_empty (e ∷ es) h = absurd (omega arith)

  more_left : (es : List E) → is_empty es ≡ false → 0 < length es
  unfolding is_empty
  more_left [] h = cc
  more_left (e ∷ es) h = omega arith

module _ {E : Type 0} (flush_threshold : ℕ) where
  -- A round that the store takes.
  abbrev round : Journal E → Journal E
  round j = flush_answer true (flush_take flush_threshold j)

  flush_loop-InOrder :
      (answers : List Bool) (j : Journal E) (events : List E)
      → j.pending ≡ false
      → j.flushing ≡ []
      → InOrder j events
      → InOrder (flush_loop flush_threshold answers j).1 events
  unfolding flush_loop flush_answer flush_take
  flush_loop-InOrder [] j events idle clear o = o
  flush_loop-InOrder (taken ∷ answers) j events idle clear o =
      let after =
        flush_answer-InOrder taken (flush_take flush_threshold j) events idle
          (flush_take-InOrder flush_threshold j events idle clear o) in
      elim (Bool-cases (is_empty j.buffer)) [
        | inl over ↦ rw over o
        | inr more ↦ elim (Bool-cases taken) [
          | inl ok ↦
              rw (more, ok)
                (flush_loop-InOrder answers (round j) events idle refl (
                  subst (λ b. InOrder (flush_answer b (flush_take flush_threshold j)) events) ok
                    after))
          | inr refused ↦
              rw (more, refused)
                (subst (λ b. InOrder (flush_answer b (flush_take flush_threshold j)) events) refused
                  after)
        ]
      ]

  flush_loop-taken :
      (answers : List Bool) (j : Journal E)
      → 0 < flush_threshold
      → All (λ b. b ≡ true) answers
      → length j.buffer ≤ length answers
      → j.flushing ≡ []
      → ((flush_loop flush_threshold answers j).0 ≡ true)
        × ((flush_loop flush_threshold answers j).1.buffer ≡ [])
        × ((flush_loop flush_threshold answers j).1.batch ≡ j.batch)
        × ((flush_loop flush_threshold answers j).1.flushing ≡ [])
  unfolding flush_loop flush_answer flush_take
  flush_loop-taken [] j h all enough clear =
      let over = short_empty j.buffer enough in (over, empty_nil j.buffer over, refl, clear)
  flush_loop-taken (taken ∷ answers) j h (ok, all) enough clear =
      elim (Bool-cases (is_empty j.buffer)) [
        | inl over ↦ rw over (refl, empty_nil j.buffer over, refl, clear)
        | inr more ↦
            rw (more, ok)
              (flush_loop-taken answers (round j) h all
                (omega (arith, more_left j.buffer more, length-drop flush_threshold j.buffer)) refl)
      ]

  -- A flush with a threshold above 0, with no flushing task pending, and whose batches the store
  -- takes, one for each event at most, while nothing is put, ends, and leaves every event in the store.
  pub flush_completes :
      {w : World E} (answers : List Bool)
      → 0 < flush_threshold
      → Reach flush_threshold started w
      → w.journal.pending ≡ false
      → w.journal.flushing ≡ []
      → All (λ b. b ≡ true) answers
      → length w.journal.buffer ≤ length answers
      → ((flush_loop flush_threshold answers w.journal).0 ≡ true)
        × ((flush_loop flush_threshold answers w.journal).1.store ≡ w.events)
  flush_completes {w} answers h r idle clear taken enough =
      let before = Reach-InOrder flush_threshold r in
      let (done, no_buffer, same_batch, no_flushing) =
        flush_loop-taken answers w.journal h taken enough clear in
      let after = flush_loop-InOrder answers w.journal w.events idle clear before in
      (
        done,
        simp (sym after.all, no_buffer, same_batch ∙ before.idle idle, no_flushing, append-nil),
      )
