-- ===== src/Journal/Order.antt =====
-- No event of a journal is lost or overtaken (journal.py).
use deer_seek_backend.Prelude.{
  ℕ, ◌≡◌, refl, sym, ap, ◌∙◌, arith, Bool, true, false, not, ◌||◌, List, [], ◌∷◌, ◌++◌, append-nil,
  append_assoc, length, length-append, ◌<◌, suc, take-append-drop, leb, Bool-cases, inl, inr,
}
use deer_seek_backend.Journal.Buffer.{
  Journal, fresh, is_empty, flush_sync, put, flush_async, on_flush_done, flush_take, flush_answer,
}

-- The journal, and the events that were put so far.
pub record World (E : Type 0) : Type 0 where
  pub journal : Journal E
  pub events : List E

abbrev pub started : {E : Type 0} → World E
started = record { journal = fresh; events = [] }

module _ {E : Type 0} (flush_threshold : ℕ) where
  -- A task ends before its end is noticed, and `flush` first waits for it. While `flush` waits for the
  -- store, events may be put as long as they do not fill the buffer: the run is over by then.
  pub data Step (w : World E) : World E → Type 0 where
    puts :
        (in_loop : Bool) (e : E)
        → w.journal.flushing ≡ []
        → Step w (record {
          journal = put flush_threshold in_loop e w.journal;
          events = w.events ++ e ∷ [];
        })
    puts_meanwhile :
        (in_loop : Bool) (e : E)
        → suc (length w.journal.buffer) < flush_threshold
        → Step w (record {
          journal = put flush_threshold in_loop e w.journal;
          events = w.events ++ e ∷ [];
        })
    flushes :
        (in_loop : Bool)
        → w.journal.flushing ≡ []
        → Step w (record w { journal = flush_sync in_loop w.journal })
    ends :
        (taken : Bool)
        → w.journal.pending ≡ true
        → Step w (record w { journal = flush_async taken w.journal })
    noticed : w.journal.batch ≡ [] → Step w (record w { journal = on_flush_done w.journal })
    takes :
        w.journal.pending ≡ false
        → w.journal.flushing ≡ []
        → Step w (record w { journal = flush_take flush_threshold w.journal })
    answered :
        (taken : Bool)
        → w.journal.pending ≡ false
        → Step w (record w { journal = flush_answer taken w.journal })

  pub data Reach (w : World E) : World E → Type 0 where
    here : Reach w w
    next : {u v : World E} → Reach w u → Step u v → Reach w v

module _ {E : Type 0} where
  -- The store, the batch of a task or of `flush`, and the buffer together have all events, in the order
  -- they were put.
  pub record InOrder (j : Journal E) (events : List E) : Type 0 where
    pub all : j.store ++ j.batch ++ j.flushing ++ j.buffer ≡ events
    pub idle : j.pending ≡ false → j.batch ≡ []
    pub alone : j.pending ≡ true → j.flushing ≡ []

  flush_sync-InOrder :
      (in_loop : Bool) (j : Journal E) (events : List E)
      → j.flushing ≡ []
      → InOrder j events
      → InOrder (flush_sync in_loop j) events
  unfolding flush_sync
  flush_sync-InOrder in_loop j events clear o =
      elim (Bool-cases (is_empty j.buffer || j.pending || not in_loop)) [
        | inl skip ↦ rw skip o
        | inr goes ↦
            let no_batch = o.idle (ground (arith, goes)) in
            rw goes record {
              all = simp (sym o.all, clear, no_batch, append-nil);
              idle = λ h. cc;
              alone = λ h. clear;
            }
      ]

  snoc-InOrder :
      (e : E) (j : Journal E) (events : List E)
      → InOrder j events
      → InOrder (record j { buffer = j.buffer ++ e ∷ [] }) (events ++ e ∷ [])
  snoc-InOrder e j events o = record {
    all =
        sym (append_assoc (j.store ++ j.batch ++ j.flushing) j.buffer (e ∷ []))
        ∙ ap (λ es. es ++ e ∷ []) o.all;
    idle = o.idle;
    alone = o.alone;
  }

  put-InOrder :
      (flush_threshold : ℕ) (in_loop : Bool) (e : E) (j : Journal E) (events : List E)
      → j.flushing ≡ []
      → InOrder j events
      → InOrder (put flush_threshold in_loop e j) (events ++ e ∷ [])
  unfolding put
  put-InOrder flush_threshold in_loop e j events clear o =
      let j' = record j { buffer = j.buffer ++ e ∷ [] } in
      elim (Bool-cases (leb flush_threshold (length j'.buffer))) [
        | inl full ↦ rw full (flush_sync-InOrder in_loop j' _ clear (snoc-InOrder e j events o))
        | inr room ↦ rw room (snoc-InOrder e j events o)
      ]

  put_meanwhile-InOrder :
      (flush_threshold : ℕ) (in_loop : Bool) (e : E) (j : Journal E) (events : List E)
      → suc (length j.buffer) < flush_threshold
      → InOrder j events
      → InOrder (put flush_threshold in_loop e j) (events ++ e ∷ [])
  unfolding put
  put_meanwhile-InOrder flush_threshold in_loop e j events few o =
      let room : leb flush_threshold (length (j.buffer ++ e ∷ [])) ≡ false =
        ground (arith, length-append j.buffer (e ∷ [])) in
      rw room (snoc-InOrder e j events o)

  flush_async-InOrder :
      (taken : Bool) (j : Journal E) (events : List E)
      → j.pending ≡ true
      → InOrder j events
      → InOrder (flush_async taken j) events
  unfolding flush_async
  flush_async-InOrder true j events busy o = record {
    all = simp (sym o.all, o.alone busy, append-nil);
    idle = λ h. refl;
    alone = o.alone;
  }
  flush_async-InOrder false j events busy o = record {
    all = simp (sym o.all, o.alone busy, append-nil, append_assoc);
    idle = λ h. refl;
    alone = o.alone;
  }

  pub flush_take-InOrder :
      (flush_threshold : ℕ) (j : Journal E) (events : List E)
      → j.pending ≡ false
      → j.flushing ≡ []
      → InOrder j events
      → InOrder (flush_take flush_threshold j) events
  unfolding flush_take
  flush_take-InOrder flush_threshold j events idle clear o = record {
    all =
        simp
          (sym o.all, clear, append-nil, append_assoc, take-append-drop flush_threshold j.buffer);
    idle = o.idle;
    alone = λ busy. cc (idle, busy);
  }

  pub flush_answer-InOrder :
      (taken : Bool) (j : Journal E) (events : List E)
      → j.pending ≡ false
      → InOrder j events
      → InOrder (flush_answer taken j) events
  unfolding flush_answer
  flush_answer-InOrder true j events idle o = record {
    all = simp (sym o.all, o.idle idle, append-nil, append_assoc);
    idle = o.idle;
    alone = λ busy. refl;
  }
  flush_answer-InOrder false j events idle o = record {
    all = simp (sym o.all, append-nil, append_assoc);
    idle = o.idle;
    alone = λ busy. refl;
  }

module _ {E : Type 0} (flush_threshold : ℕ) where
  Step-InOrder :
      {u v : World E}
      → Step flush_threshold u v
      → InOrder u.journal u.events
      → InOrder v.journal v.events
  Step-InOrder {u} (puts in_loop e clear) o =
      put-InOrder flush_threshold in_loop e u.journal u.events clear o
  Step-InOrder {u} (puts_meanwhile in_loop e few) o =
      put_meanwhile-InOrder flush_threshold in_loop e u.journal u.events few o
  Step-InOrder {u} (flushes in_loop clear) o = flush_sync-InOrder in_loop u.journal u.events clear o
  Step-InOrder {u} (ends taken busy) o = flush_async-InOrder taken u.journal u.events busy o
  Step-InOrder {u} (noticed over) o = record { all = o.all; idle = λ h. over; alone = λ busy. cc }
  Step-InOrder {u} (takes idle clear) o =
      flush_take-InOrder flush_threshold u.journal u.events idle clear o
  Step-InOrder {u} (answered taken idle) o = flush_answer-InOrder taken u.journal u.events idle o

  -- Whatever batches the store refuses, whenever the flushing tasks end, and whatever is put while the
  -- last flush waits for the store and does not fill the buffer: the store, the batches on their way and
  -- the buffer together have every event once, in the order in which they were put.
  pub Reach-InOrder : {w : World E} → Reach flush_threshold started w → InOrder w.journal w.events
  Reach-InOrder here = record { all = refl; idle = λ h. refl; alone = λ h. refl }
  Reach-InOrder (next r st) = Step-InOrder st (Reach-InOrder r)
