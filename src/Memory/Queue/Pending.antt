-- ===== src/Memory/Queue/Pending.antt =====
-- `MemoryUpdateQueue` against a map from each key to the update that is wanted for it.
use deer_seek_backend.Prelude.{
  ℕ, suc, ◌-◌, ◌≡◌, ◌∙◌, refl, sym, ap, arith, Bool, true, false, Option, none, some, List, [], ◌∷◌,
  ◌==◌, Eq, string_eq, option_eq, pair_eq, Distinct, if◌then◌else◌, Bool-cases, inl, inr,
}
use deer_seek_backend.Memory.Queue.{
  Context, Queue, find, merged, enqueue, schedule_timer, add, add_nowait, take_queue,
  start_processing, end_processing, flush, flush_nowait, clear,
}
use deer_seek_backend.Memory.Queue.Enqueue.{keys_of, find-enqueue, enqueue-Distinct}

-- The update that is wanted for a key.
abbrev pub Wanted : Type 0 → Type 0 → Type 0
Wanted K M = K → Option (Context K M)

abbrev pub nothing : {K M : Type 0} → Wanted K M
nothing k = none

-- The queue, and the calls of `flush` that are between their two locked sections.
pub record World (K M : Type 0) : Type 0 where
  pub queue : Queue K M
  pub flushing : ℕ

-- The locked sections of the methods.
pub data Op (K M : Type 0) : Type 0 where
  added : Bool → ℕ → Context K M → Op K M
  added_now : Bool → Context K M → Op K M
  timer_fired : Op K M
  flush_starts flush_processes : Op K M
  flushed_now : Op K M
  processed : Op K M
  cleared : Op K M

module _ {K M : Type 0} ⦃e : Eq K⦄ where
  -- A section that takes contexts to process.
  abbrev processes : ℕ → List (Context K M) × Queue K M → List (Context K M) × World K M
  processes n (cs, q) = (cs, record { queue = q; flushing = n })

  -- The contexts that a step takes to process, and the queue after it.
  unfoldable pub step : Op K M → World K M → List (Context K M) × World K M
  unfolding add add_nowait start_processing flush flush_nowait end_processing clear
  step (added enabled delay c) s = ([], record s { queue = add enabled delay c s.queue })
  step (added_now enabled c) s = ([], record s { queue = add_nowait enabled c s.queue })
  step timer_fired s = processes s.flushing (start_processing s.queue)
  step flush_starts s = ([], record { queue = flush s.queue; flushing = suc s.flushing })
  step flush_processes s = processes (s.flushing - 1) (start_processing s.queue)
  step flushed_now s = ([], record s { queue = flush_nowait s.queue })
  step processed s = ([], record s { queue = end_processing s.queue })
  step cleared s = ([], record s { queue = clear s.queue })

  -- The latest update for a key, with the signals of those that it replaces.
  abbrev pub want : Context K M → Wanted K M → Wanted K M
  want c w k = if c.key == k then some (merged c (w c.key)) else w k

  -- What is wanted after a step, `busy` saying whether updates are being processed.
  abbrev pub wanted_after : Op K M → Bool → Wanted K M → Wanted K M
  wanted_after (added enabled delay c) busy w = if enabled then want c w else w
  wanted_after (added_now enabled c) busy w = if enabled then want c w else w
  wanted_after timer_fired busy w = if busy then w else nothing
  wanted_after flush_processes busy w = if busy then w else nothing
  wanted_after cleared busy w = nothing
  wanted_after _ busy w = w

  -- What a step has to take.
  abbrev pub wanted_now : Op K M → Bool → Wanted K M → Wanted K M
  wanted_now timer_fired busy w = if busy then nothing else w
  wanted_now flush_processes busy w = if busy then nothing else w
  wanted_now _ busy w = nothing

  -- Each key waits at most once, with what is wanted for it, and while any key waits a timer is set or
  -- a flush is about to process the queue.
  pub record Refines (s : World K M) (w : Wanted K M) : Type 0 where
    pub once : Distinct (keys_of s.queue.queue)
    pub waits : (k : K) → find k s.queue.queue ≡ w k
    pub armed : s.queue.timer ≡ none → s.flushing ≡ 0 → s.queue.queue ≡ []

  add-Refines :
      (delay : ℕ) (c : Context K M) (s : World K M) (w : Wanted K M)
      → Refines s w
      → Refines
          (record s {
            queue = schedule_timer delay (record s.queue { queue = enqueue c s.queue.queue });
          })
          (want c w)
  add-Refines delay c s w r = record {
    once = enqueue-Distinct c s.queue.queue r.once;
    waits = λ k. ground (arith, find-enqueue k c s.queue.queue, r.waits c.key, r.waits k);
    armed = λ h idle. cc;
  }

  take_queue-Refines :
      (n : ℕ) (cs : List (Context K M)) (q : Queue K M) (w : Wanted K M)
      → q.queue ≡ cs
      → ((k : K) → find k q.queue ≡ w k)
      → ((k : K) → find k (take_queue cs q).0 ≡ w k)
        × Refines (record { queue = (take_queue cs q).1; flushing = n }) nothing
  unfolding take_queue find
  take_queue-Refines n [] q w h waits = (
    λ k. ap (find k) (sym h) ∙ waits k,
    record { once = rw h tt; waits = λ k. rw h refl; armed = λ t idle. h },
  )
  take_queue-Refines n (c ∷ cs) q w h waits = (
    λ k. ap (find k) (sym h) ∙ waits k,
    record { once = tt; waits = λ k. refl; armed = λ t idle. refl },
  )

  start_processing-Refines :
      (n : ℕ) (q : Queue K M) (w : Wanted K M)
      → Distinct (keys_of q.queue)
      → ((k : K) → find k q.queue ≡ w k)
      → ((k : K)
          → find k (processes n (start_processing q)).0 ≡ (if q.processing then nothing else w) k)
        × Refines (processes n (start_processing q)).1 (if q.processing then w else nothing)
  unfolding start_processing find
  start_processing-Refines n q w once waits = elim (Bool-cases q.processing) [
    | inl busy ↦ rw busy (λ k. refl, record { once = once; waits = waits; armed = λ h idle. cc })
    | inr idle ↦
        rw idle (take_queue-Refines n q.queue (record q { processing = false }) w refl waits)
  ]

  -- One locked section of a call, or one run of a timer, against the map: it takes to be processed
  -- exactly what is wanted, once nothing else is being processed, and loses nothing.
  pub step-Refines :
      (op : Op K M) (s : World K M) (w : Wanted K M)
      → Refines s w
      → ((k : K) → find k (step op s).0 ≡ wanted_now op s.queue.processing w k)
        × Refines (step op s).1 (wanted_after op s.queue.processing w)
  unfolding step add add_nowait flush flush_nowait end_processing clear find
  step-Refines (added true delay c) s w r = (λ k. refl, add-Refines delay c s w r)
  step-Refines (added false delay c) s w r = (λ k. refl, r)
  step-Refines (added_now true c) s w r = (λ k. refl, add-Refines 0 c s w r)
  step-Refines (added_now false c) s w r = (λ k. refl, r)
  step-Refines timer_fired s w r = start_processing-Refines s.flushing s.queue w r.once r.waits
  step-Refines flush_starts s w r =
      (λ k. refl, record { once = r.once; waits = r.waits; armed = λ h idle. absurd (omega arith) })
  step-Refines flush_processes s w r =
      start_processing-Refines (s.flushing - 1) s.queue w r.once r.waits
  step-Refines flushed_now s w r =
      (λ k. refl, record { once = r.once; waits = r.waits; armed = λ h idle. cc })
  step-Refines processed s w r =
      (λ k. refl, record { once = r.once; waits = r.waits; armed = r.armed })
  step-Refines cleared s w r =
      (λ k. refl, record { once = tt; waits = λ k. refl; armed = λ h idle. refl })
