-- ===== src/EventStore/Invariant.antt =====
-- After any calls the events of every thread rise in their sequence numbers, and the messages kept
-- beside them are exactly the messages among them.
use deer_seek_backend.Prelude.{
  ℕ, ◌+◌, ◌≤◌, ◌<◌, String, ◌≡◌, refl, ap, subst, Bool, ◌==◌, not, List, [], ◌∷◌, ◌++◌, arith,
  eq_iff, string_eq, nat_eq, if◌then◌else◌, length, keep, keep-append, All, All-append, All-keep,
  Bool-cases, inl, inr, append-nil,
}
use deer_seek_backend.Dict.{get_or}
use deer_seek_backend.Dict.Laws.{get_or-put, get_or-pop}
use deer_seek_backend.EventStore.{
  Event, Store, NewEvent, empty, is_message, events_of, messages_of, counter_of, put_one, put_batch,
  delete_by_thread, delete_by_run,
}
use deer_seek_backend.EventStore.Bisect.{Rising}

module _ {ℓ} {A : Type ℓ} (key : A → ℕ) where
  Rising-mono : (m n : ℕ) (xs : List A) → m ≤ n → Rising key n xs → Rising key m xs
  Rising-mono m n [] h r = tt
  Rising-mono m n (x ∷ xs) h r = (omega (arith, r.0), r.1)

  Rising-snoc :
      (n m : ℕ) (xs : List A) (x : A)
      → Rising key n xs
      → All (λ a. key a ≤ m) xs
      → n ≤ m
      → m < key x
      → Rising key n (xs ++ x ∷ [])
  Rising-snoc n m [] x r b h lt = (omega arith, tt)
  Rising-snoc n m (y ∷ xs) x r b h lt = (r.0, Rising-snoc (key y) m xs x r.1 b.1 b.0 lt)

  pub Rising-keep :
      (n : ℕ) (p : A → Bool) (xs : List A) → Rising key n xs → Rising key n (keep p xs)
  Rising-keep n p [] r = tt
  Rising-keep n p (x ∷ xs) r = elim (Bool-cases (p x)) [
    | inl kept ↦ rw kept (r.0, Rising-keep (key x) p xs r.1)
    | inr gone ↦
        rw gone (Rising-mono n (key x) _ (omega (arith, r.0)) (Rising-keep (key x) p xs r.1))
  ]

  All-mono : (m n : ℕ) (xs : List A) → m ≤ n → All (λ a. key a ≤ m) xs → All (λ a. key a ≤ n) xs
  All-mono m n [] h b = tt
  All-mono m n (x ∷ xs) h b = (omega (arith, b.0), All-mono m n xs h b.1)

keep_comm {ℓ} :
    {A : Type ℓ} (p q : A → Bool) (xs : List A) → keep p (keep q xs) ≡ keep q (keep p xs)
keep_comm p q [] = refl
keep_comm p q (x ∷ xs) = ground (arith, keep_comm p q xs)

-- The invariant of one thread, over its events, messages and counter.
pub record IsOrdered {D : Type 0} (events messages : List (Event D)) (counter : ℕ) : Type 0 where
  pub rising : Rising (λ e. e.seq) 0 events
  pub counted : All (λ e. e.seq ≤ counter) events
  pub projected : messages ≡ keep is_message events

module _ {D : Type 0} where
  abbrev pub IsValid : Store D → Type 0
  IsValid s = (t : String) → IsOrdered (events_of s t) (messages_of s t) (counter_of s t)

  IsOrdered-snoc :
      (es ms : List (Event D)) (c : ℕ) (e : Event D)
      → IsOrdered es ms c
      → e.seq ≡ c + 1
      → IsOrdered (es ++ e ∷ []) (if is_message e then ms ++ e ∷ [] else ms) (c + 1)
  IsOrdered-snoc es ms c e v h = record {
    rising = Rising-snoc (λ a. a.seq) 0 c es e v.rising v.counted (omega arith) (omega arith);
    counted =
        All-append (λ a. a.seq ≤ c + 1) es (e ∷ [])
          (All-mono (λ a. a.seq) c (c + 1) es (omega arith) v.counted) (omega arith, tt);
    projected = ground (arith, v.projected, keep-append is_message es (e ∷ []), append-nil ms);
  }

  IsOrdered-keep :
      (es ms : List (Event D)) (c : ℕ) (p : Event D → Bool)
      → IsOrdered es ms c
      → IsOrdered (keep p es) (keep is_message (keep p es)) c
  IsOrdered-keep es ms c p v = record {
    rising = Rising-keep (λ a. a.seq) 0 p es v.rising;
    counted = All-keep (λ a. a.seq ≤ c) p es v.counted;
    projected = refl;
  }

  IsOrdered-empty : IsOrdered {D = D} [] [] 0
  IsOrdered-empty = record { rising = tt; counted = tt; projected = refl }

module _ {D : Type 0} (no_metadata : D) (now : ℕ) (s : Store D) (n : NewEvent D) where
  abbrev added : Event D
  added = (put_one no_metadata now s n).1

  abbrev pub one_more : Store D
  one_more = (put_one no_metadata now s n).0

  pub seq-put_one : added.seq ≡ counter_of s n.thread_id + 1
  unfolding put_one
  seq-put_one = refl

  pub events_of-put_one :
      (t : String)
      → events_of one_more t
        ≡ (if n.thread_id == t then events_of s n.thread_id ++ added ∷ [] else events_of s t)
  unfolding put_one
  events_of-put_one t = get_or-put s.events n.thread_id t _ []

  messages_of-put_one :
      (t : String)
      → messages_of one_more t ≡ (
          if n.thread_id == t
          then (if is_message added
              then messages_of s n.thread_id ++ added ∷ []
              else messages_of s n.thread_id)
          else messages_of s t)
  unfolding put_one
  messages_of-put_one t = ground (
    arith,
    get_or-put s.messages n.thread_id t (messages_of s n.thread_id ++ added ∷ []) [],
    eq_iff n.thread_id t,
  )

  counter_of-put_one :
      (t : String)
      → counter_of one_more t
        ≡ (if n.thread_id == t then counter_of s n.thread_id + 1 else counter_of s t)
  unfolding put_one
  counter_of-put_one t = get_or-put s.seq_counters n.thread_id t _ 0

  pub put_one-IsValid : IsValid s → IsValid one_more
  put_one-IsValid v t =
      rw (events_of-put_one t, messages_of-put_one t, counter_of-put_one t)
        (elim (Bool-cases (n.thread_id == t)) [
          | inl same ↦ rw same (IsOrdered-snoc _ _ _ added (v n.thread_id) seq-put_one)
          | inr other ↦ rw other (v t)
        ])

module _ {D : Type 0} (no_metadata : D) (now : ℕ) where
  put_batch-IsValid :
      (s : Store D) (ns : List (NewEvent D))
      → IsValid s
      → IsValid (put_batch no_metadata now s ns).0
  unfolding put_batch
  put_batch-IsValid s [] v = v
  put_batch-IsValid s (n ∷ ns) v =
      put_batch-IsValid (one_more no_metadata now s n) ns (put_one-IsValid no_metadata now s n v)

module _ {D : Type 0} (s : Store D) (thread : String) where
  delete_by_thread-IsValid : IsValid s → IsValid (delete_by_thread s thread).0
  unfolding delete_by_thread
  delete_by_thread-IsValid v t =
      rw
        (
          get_or-pop s.events thread t [],
          get_or-pop s.messages thread t [],
          get_or-pop s.seq_counters thread t 0,
        )
        (elim (Bool-cases (thread == t)) [
          | inl same ↦ rw same IsOrdered-empty
          | inr other ↦ rw other (v t)
        ])

  delete_by_run-IsValid : (run : String) → IsValid s → IsValid (delete_by_run s thread run).0
  unfolding delete_by_run
  delete_by_run-IsValid run v t = elim (Bool-cases (length (events_of s thread) == 0)) [
    | inl none_left ↦ rw none_left (v t)
    | inr some_left ↦
        rw
          (
            some_left,
            get_or-put s.events thread t (keep (λ e. not (e.run_id == run)) (events_of s thread))
                [],
            get_or-put s.messages thread t _ [],
          )
          (elim (Bool-cases (thread == t)) [
            | inl same ↦
                let left : List (Event D) =
                  keep (λ e. not (e.run_id == run)) (events_of s thread) in
                rw same (
                  subst (λ c. IsOrdered left (keep is_message left) c)
                    (ap (counter_of s) ((eq_iff thread t).0 same))
                    (IsOrdered-keep (events_of s thread) (messages_of s thread)
                      (counter_of s thread) (λ e. not (e.run_id == run)) (v thread)))
            | inr other ↦ rw other (v t)
          ])
  ]

-- A call of one of the methods that write, at a clock.
pub data Call (D : Type 0) : Type 0 where
  puts : ℕ → NewEvent D → Call D
  puts_batch : ℕ → List (NewEvent D) → Call D
  deletes_thread : String → Call D
  deletes_run : String → String → Call D

module _ {D : Type 0} (no_metadata : D) where
  unfoldable pub after : Store D → Call D → Store D
  after s (puts now n) = (put_one no_metadata now s n).0
  after s (puts_batch now ns) = (put_batch no_metadata now s ns).0
  after s (deletes_thread thread) = (delete_by_thread s thread).0
  after s (deletes_run thread run) = (delete_by_run s thread run).0

  unfoldable pub run : Store D → List (Call D) → Store D
  unfolding after
  run s [] = s
  run s (c ∷ cs) = run (after s c) cs

  after-IsValid : (s : Store D) (c : Call D) → IsValid s → IsValid (after s c)
  unfolding after
  after-IsValid s (puts now n) v = put_one-IsValid no_metadata now s n v
  after-IsValid s (puts_batch now ns) v = put_batch-IsValid no_metadata now s ns v
  after-IsValid s (deletes_thread thread) v = delete_by_thread-IsValid s thread v
  after-IsValid s (deletes_run thread r) v = delete_by_run-IsValid s thread r v

  run-IsValid : (s : Store D) (cs : List (Call D)) → IsValid s → IsValid (run s cs)
  unfolding run
  run-IsValid s [] v = v
  run-IsValid s (c ∷ cs) v = run-IsValid (after s c) cs (after-IsValid s c v)

  -- After any calls on an empty store, in every thread the events rise in their sequence numbers, none
  -- is above the thread's counter, and the message list is the messages among the events.
  pub run_empty-IsValid : (cs : List (Call D)) → IsValid (run empty cs)
  run_empty-IsValid cs = run-IsValid empty cs (λ t. unfold get_or in IsOrdered-empty)
