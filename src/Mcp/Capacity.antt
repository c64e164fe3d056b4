-- ===== src/Mcp/Capacity.antt =====
-- The number of sessions that `MCPSessionPool` keeps, against `MAX_SESSIONS`.
use deer_seek_backend.Prelude.{
  ℕ, suc, ◌≤◌, ◌<◌, ◌≡◌, refl, ap, ◌∙◌, Bool, true, false, Option, none, some, List, [], ◌∷◌, ◌++◌,
  ◌==◌, arith, nat_eq, string_eq, pair_eq, length, Bool-cases, inl, inr, beq_refl, eqb_iff,
}
use deer_seek_backend.Dict.{Dict, get, put, pop}
use deer_seek_backend.Dict.Laws.{get-put, get-pop, has-put, has_absent, length-put}
use deer_seek_backend.Mcp.{
  Key, Entry, Creation, Eviction, Pool, Outcome, joins, creates, returns, evict_entry,
  evict_creation, usable, evict_lru, make_room, start_creation, find_creation, find_entry,
  get_locked, still_ours, promote,
}
use deer_seek_backend.Mcp.Owners.{evict_lru-length}

still_ours_refl : (c : Creation) → still_ours (some c) c ≡ true
unfolding still_ours
still_ours_refl c = ground (arith, eqb_iff c.loop c.loop, eqb_iff c.owner c.owner)

module _ {S : Type 0} (max : ℕ) (closed : ℕ → Bool) (current : ℕ) where
  abbrev creation_of : Pool S → Creation
  creation_of p = record { loop = current; owner = p.created }

  abbrev with_creation : Key → Pool S → Pool S
  with_creation key p = record p {
    inflight = put p.inflight key (creation_of p);
    created = suc p.created;
  }

  -- After the first phase there is room for one more session, unless the session was there.
  HasRoom : Outcome S × List Eviction × Pool S → Type 0
  HasRoom (returns s, _, p) = Unit
  HasRoom (_, _, p) = length p.entries < max

  make_room-HasRoom :
      (outcome : Outcome S) (evicted : List Eviction) (p : Pool S)
      → 0 < max
      → HasRoom (make_room max outcome evicted p)
  unfolding make_room HasRoom
  make_room-HasRoom (returns s) evicted p h = tt
  make_room-HasRoom (joins c) evicted p h = evict_lru-length max p.entries h
  make_room-HasRoom (creates c) evicted p h = evict_lru-length max p.entries h

  find_creation-HasRoom :
      (key : Key) (found : Option Creation) (evicted : List Eviction) (p : Pool S)
      → 0 < max
      → HasRoom (find_creation max closed current key found evicted p)
  unfolding find_creation start_creation
  find_creation-HasRoom key none evicted p h =
      make_room-HasRoom (creates (creation_of p)) evicted (with_creation key p) h
  find_creation-HasRoom key (some c) evicted p h =
      elim (Bool-cases (usable closed current c.loop)) [
        | inl joined ↦ rw joined (make_room-HasRoom (joins c) evicted p h)
        | inr stale ↦ rw stale (
            make_room-HasRoom (creates (creation_of p)) (evicted ++ evict_creation c ∷ [])
              (with_creation key (record p { inflight = pop p.inflight key })) h)
      ]

  find_entry-HasRoom :
      (key : Key) (found : Option (Entry S)) (p : Pool S)
      → 0 < max
      → HasRoom (find_entry max closed current key found p)
  unfolding find_entry HasRoom
  find_entry-HasRoom key none p h = find_creation-HasRoom key (get p.inflight key) [] p h
  find_entry-HasRoom key (some e) p h = elim (Bool-cases (usable closed current e.loop)) [
    | inl open_loop ↦ rw open_loop tt
    | inr stale ↦ rw stale (
        find_creation-HasRoom key (get p.inflight key) (evict_entry e ∷ [])
          (record p { entries = pop p.entries key }) h)
  ]

  room_of :
      (r : Outcome S × List Eviction × Pool S) (c : Creation)
      → r.0 ≡ creates c
      → HasRoom r
      → length r.2.entries < max
  unfolding HasRoom
  room_of (returns s, _, p) c made room = cc
  room_of (joins d, _, p) c made room = room
  room_of (creates d, _, p) c made room = room

  get_locked-HasRoom :
      (key : Key) (p : Pool S) → 0 < max → HasRoom (get_locked max closed current key p)
  unfolding get_locked
  get_locked-HasRoom key p h = find_entry-HasRoom key (get p.entries key) p h

  promote-length :
      (key : Key) (c : Creation) (session : S) (p : Pool S)
      → length (promote key c session p).1.entries ≤ suc (length p.entries)
  unfolding promote
  promote-length key c session p =
      let e : Entry S = record { session = session; loop = c.loop; owner = c.owner } in
      ground (arith, length-put p.entries key e)

  -- A creation that no other call overlaps leaves at most `max` sessions.
  pub create_bounded :
      (key : Key) (c : Creation) (session : S) (p : Pool S)
      → 0 < max
      → (get_locked max closed current key p).0 ≡ creates c
      → length (promote key c session (get_locked max closed current key p).2).1.entries ≤ max
  create_bounded key c session p h made =
      let q = (get_locked max closed current key p).2 in
      omega (
        arith,
        promote-length key c session q,
        room_of (get_locked max closed current key p) c made (get_locked-HasRoom key p h),
      )

  evict_lru_below : (es : Dict Key (Entry S)) → length es < max → evict_lru max es ≡ ([], es)
  unfolding evict_lru
  evict_lru_below [] h = refl
  evict_lru_below ((k, e) ∷ es) h = ground arith

  abbrev Unknown : Key → Pool S → Type 0
  Unknown key p = (get p.entries key ≡ none) × (get p.inflight key ≡ none)

  get_locked_new :
      (key : Key) (p : Pool S)
      → Unknown key p
      → length p.entries < max
      → get_locked max closed current key p ≡ (creates (creation_of p), [], with_creation key p)
  unfolding get_locked find_entry find_creation start_creation make_room
  get_locked_new key p (no_entry, no_creation) room =
      ap (λ o. find_entry max closed current key o p) no_entry
      ∙ ap (λ o. find_creation max closed current key o [] p) no_creation
      ∙ rw (evict_lru_below p.entries room)

  promote_live :
      (key : Key) (c : Creation) (session : S) (p : Pool S)
      → get p.inflight key ≡ some c
      → let e : Entry S = record { session = session; loop = c.loop; owner = c.owner } in
        promote key c session p
        ≡ (true, record p { inflight = pop p.inflight key; entries = put p.entries key e })
  unfolding promote
  promote_live key c session p found =
      let ours : still_ours (get p.inflight key) c ≡ true = rw found (still_ours_refl c) in rw ours

  -- Two calls that overlap: both create, and then both register their sessions.
  unfoldable pub two_creations : Key → Key → S → S → Pool S → Pool S
  two_creations k l s t p =
      let q = (get_locked max closed current k p).2 in
      let r = (get_locked max closed current l q).2 in
      let u = (promote k (creation_of p) s r).1 in (promote l (creation_of q) t u).1

  module _ (k l : Key) (s t : S) (p : Pool S) where
    -- Two different keys without a session or a creation, and one place left: if their creations
    -- overlap, both find the place free, and there is one session too many afterwards.
    pub overlapping_creations :
        (k == l) ≡ false
        → (l == k) ≡ false
        → Unknown k p
        → Unknown l p
        → suc (length p.entries) ≡ max
        → length (two_creations k l s t p).entries ≡ suc max
    unfolding two_creations
    overlapping_creations apart apart' no_k no_l full =
        let c = creation_of p in
        let q = with_creation k p in
        let d = creation_of q in
        let r = with_creation l q in
        let first = get_locked_new k p no_k (omega arith) in
        let l_new : get q.inflight l ≡ none = rw (get-put p.inflight k l c, apart) no_l.1 in
        let second = get_locked_new l q (no_l.0, l_new) (omega arith) in
        let c_live : get r.inflight k ≡ some c =
          rw (get-put q.inflight l k d, apart', get-put p.inflight k k c, beq_refl k) refl in
        let e : Entry S = record { session = s; loop = current; owner = p.created } in
        let u = record r { inflight = pop r.inflight k; entries = put p.entries k e } in
        let d_live : get (pop r.inflight k) l ≡ some d =
          rw (get-pop r.inflight k l, apart, get-put q.inflight l l d, beq_refl l) refl in
        let f : Entry S = record { session = t; loop = current; owner = suc p.created } in
        rw (two_creations, first, second, promote_live k c s r c_live, promote_live l d t u d_live)
          (ground (
            arith,
            length-put (put p.entries k e) l f,
            length-put p.entries k e,
            has-put p.entries k l e,
            has_absent p.entries k no_k.0,
            has_absent p.entries l no_l.0,
          ))
