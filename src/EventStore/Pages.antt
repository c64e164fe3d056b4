-- ===== src/EventStore/Pages.antt =====
-- What the queries return, against the plain filters that they stand for.
use deer_seek_backend.Prelude.{
  ℕ, ◌≤◌, ◌<◌, String, ◌≡◌, refl, ap, sym, ◌∙◌, Bool, not, none, some, List, [], ◌∷◌, ◌++◌, arith,
  ltb, leb, keep, take, drop, take_last, take-append-drop, subst, Option, Bool-cases, inl, inr,
  string_eq, nat_eq, append_assoc,
}
use mathlib.Core.Path.{fun_ext}
use deer_seek_backend.EventStore.{Event, Store, is_message, events_of, messages_of, list_messages}
use deer_seek_backend.EventStore.Bisect.{
  Rising, take-bisect_left, bisect_left-count, drop-bisect_right,
}
use deer_seek_backend.EventStore.Invariant.{IsValid, Rising-keep}

keep_by :
    {A : Type 0} (p q : A → Bool) (xs : List A) → ((x : A) → p x ≡ q x) → keep p xs ≡ keep q xs
keep_by p q xs h = rw (fun_ext h)

keep_twice :
    {A : Type 0} (key : A → ℕ) (m n : ℕ) (xs : List A)
    → m ≤ n
    → keep (λ x. ltb n (key x)) (keep (λ x. ltb m (key x)) xs) ≡ keep (λ x. ltb n (key x)) xs
keep_twice key m n [] h = refl
keep_twice key m n (x ∷ xs) h = ground (arith, keep_twice key m n xs h)

keep_all_above :
    {A : Type 0} (key : A → ℕ) (m n : ℕ) (xs : List A)
    → m ≤ n
    → Rising key n xs
    → keep (λ x. ltb m (key x)) xs ≡ xs
keep_all_above key m n [] h r = refl
keep_all_above key m n (x ∷ xs) h r =
    ground (arith, r.0, keep_all_above key m (key x) xs (omega (arith, r.0)) r.1)

keep_after_last :
    {A : Type 0} (key : A → ℕ) (n : ℕ) (front : List A) (last : A) (rest : List A)
    → Rising key n (front ++ last ∷ rest)
    → (n < key last) × (keep (λ x. ltb (key last) (key x)) (front ++ last ∷ rest) ≡ rest)
keep_after_last key n [] last rest r =
    (r.0, ground (arith, keep_all_above key (key last) (key last) rest (omega arith) r.1))
keep_after_last key n (x ∷ front) last rest r =
    let (above, ih) = keep_after_last key (key x) front last rest r.1 in
    (omega (arith, r.0), ground (arith, ih))

Rising-keep_above :
    {A : Type 0} (key : A → ℕ) (n m : ℕ) (xs : List A)
    → Rising key n xs
    → Rising key m (keep (λ x. ltb m (key x)) xs)
Rising-keep_above key n m [] r = tt
Rising-keep_above key n m (x ∷ xs) r = elim (Bool-cases (ltb m (key x))) [
  | inl above ↦ rw (above, keep_all_above key m (key x) xs (ground arith) r.1) (ground arith, r.1)
  | inr below ↦ rw below (Rising-keep_above key (key x) m xs r.1)
]

module _ {D : Type 0} (s : Store D) (thread : String) (valid : IsValid s) where
  -- The messages of the thread, among its events.
  abbrev pub thread_messages : List (Event D)
  thread_messages = keep is_message (events_of s thread)

  messages-Rising : Rising (λ e. e.seq) 0 (messages_of s thread)
  messages-Rising =
      rw (valid thread).projected
        (Rising-keep (λ e. e.seq) 0 is_message (events_of s thread) (valid thread).rising)

  -- With `before_seq`, whatever `after_seq` is: the last `limit` of the messages below it.
  list_messages_before :
      (limit before : ℕ) (after : Option ℕ)
      → list_messages s thread limit (some before) after
        ≡ take_last limit (keep (λ e. ltb e.seq before) thread_messages)
  unfolding list_messages
  list_messages_before limit before after = rw (
    take-bisect_left (λ e. e.seq) 0 (messages_of s thread) before messages-Rising,
    bisect_left-count (λ e. e.seq) 0 (messages_of s thread) before messages-Rising,
    (valid thread).projected,
  )

  list_messages_after :
      (limit after : ℕ)
      → list_messages s thread limit none (some after)
        ≡ take limit (keep (λ e. ltb after e.seq) thread_messages)
  unfolding list_messages
  list_messages_after limit after = rw (
    drop-bisect_right (λ e. e.seq) 0 (messages_of s thread) after messages-Rising,
    (valid thread).projected,
    keep_by (λ e. not (leb e.seq after)) (λ e. ltb after e.seq) thread_messages (λ e. ground arith),
  )

  list_messages_latest :
      (limit : ℕ)
      → 0 < limit
      → list_messages s thread limit none none ≡ take_last limit thread_messages
  unfolding list_messages
  list_messages_latest limit h = ground (arith, (valid thread).projected)

  -- The messages that a query asks for, as filters on the thread's events.
  abbrev pub requested : ℕ → Option ℕ → Option ℕ → List (Event D)
  requested limit (some before) _ = take_last limit (keep (λ e. ltb e.seq before) thread_messages)
  requested limit none (some after) = take limit (keep (λ e. ltb after e.seq) thread_messages)
  requested limit none none = take_last limit thread_messages

  -- The binary searches of `list_messages` return what the filters ask for, at most `limit` messages,
  -- for every positive limit and all bounds.
  pub list_messages-requested :
      (limit : ℕ) (before after : Option ℕ)
      → 0 < limit
      → list_messages s thread limit before after ≡ requested limit before after
  list_messages-requested limit (some before) after h = list_messages_before limit before after
  list_messages-requested limit none (some after) h = list_messages_after limit after
  list_messages-requested limit none none h = list_messages_latest limit h

  -- A limit of 0 with no bound returns every message of the thread.
  pub list_messages_zero : list_messages s thread 0 none none ≡ thread_messages
  unfolding list_messages
  list_messages_zero = (valid thread).projected

  -- Forward paging: the messages after a bound are the page, and then those after the page's last.
  pub page_continues :
      (limit after : ℕ) (front : List (Event D)) (last : Event D)
      → list_messages s thread limit none (some after) ≡ front ++ last ∷ []
      → keep (λ e. ltb after e.seq) thread_messages
        ≡ list_messages s thread limit none (some after)
          ++ keep (λ e. ltb last.seq e.seq) thread_messages
  page_continues limit after front last page =
      let ms = thread_messages in
      let ys = keep (λ e. ltb after e.seq) ms in
      let split : ys ≡ front ++ last ∷ drop limit ys =
        sym (take-append-drop limit ys)
        ∙ ap (λ zs. zs ++ drop limit ys) (sym (list_messages_after limit after) ∙ page)
        ∙ append_assoc front (last ∷ []) (drop limit ys) in
      let rising : Rising (λ e. e.seq) after ys =
        Rising-keep_above (λ e. e.seq) 0 after ms
          (rw (valid thread).projected at messages-Rising) in
      let (above, tail) =
        keep_after_last (λ e. e.seq) after front last (drop limit ys)
          (subst (Rising (λ e. e.seq) after) split rising) in
      let rest : drop limit ys ≡ keep (λ e. ltb last.seq e.seq) ms =
        sym tail
        ∙ ap (keep (λ e. ltb last.seq e.seq)) (sym split)
        ∙ keep_twice (λ e. e.seq) after last.seq ms (omega (arith, above)) in
      sym (take-append-drop limit ys)
      ∙ ap (λ zs. zs ++ drop limit ys) (sym (list_messages_after limit after))
      ∙ ap (λ zs. list_messages s thread limit none (some after) ++ zs) rest
