-- ===== src/Mcp/Callers.antt =====
-- Callers of `MCPSessionPool` that meet: on one creation, on a close, and at capacity.
use deer_seek_backend.Prelude.{
  ℕ, suc, ◌≤◌, ◌<◌, ◌≡◌, sym, ap, ◌∙◌, Bool, true, false, Option, none, some, List, [], ◌∷◌, ◌++◌,
  ◌==◌, arith, nat_eq, string_eq, pair_eq, count, Bool-cases, inl, inr, eqb_iff,
}
use deer_seek_backend.Dict.{Dict, get, has, put, pop}
use deer_seek_backend.Dict.Laws.{get-put, get-pop, has-pop, has-move_to_end}
use deer_seek_backend.Dict.Tally.{count-append, tally-pop}
use deer_seek_backend.Mcp.{
  Key, Entry, Creation, Eviction, Pool, Outcome, joins, creates, evict_entry, evict_creation,
  usable, evict_lru, make_room, start_creation, find_creation, find_entry, get_locked, close_scope,
  close_server, close_all, still_ours, promote,
}
use deer_seek_backend.Mcp.Owners.{owners, key_eq, IsAccounted, evict_lru-has}
use deer_seek_backend.Mcp.Steps.{
  World, started, Step, got, promoted, failed, scope_closed, server_closed, all_closed, Reach, here,
  next, creation_ours, Step-IsAccounted, Reach-IsAccounted,
}

count_handed : (o : ℕ) (more handed : List ℕ) → count o handed ≤ count o (more ++ handed)
count_handed o more handed = omega (arith, count-append o more handed)

pub get_missing : {V : Type 0} (d : Dict Key V) (k : Key) → has d k ≡ false → get d k ≡ none
unfolding has
get_missing d k h = ground arith

module _ {S : Type 0} (max : ℕ) where
  handed_grows : {u v : World S} (o : ℕ) → Step max u v → count o u.handed ≤ count o v.handed
  handed_grows {u} o (got closed current key) =
      count_handed o (owners (get_locked max closed current key u.pool).1) u.handed
  handed_grows {u} o (promoted key c session) = omega arith
  handed_grows {u} o (failed key c) = ground arith
  handed_grows {u} o (scope_closed scope) =
      count_handed o (owners (close_scope scope u.pool).0) u.handed
  handed_grows {u} o (server_closed server) =
      count_handed o (owners (close_server server u.pool).0) u.handed
  handed_grows {u} o all_closed = count_handed o (owners (close_all u.pool).0) u.handed

  promote_handed :
      (p : Pool S) (handed : List ℕ) (key : Key) (c : Creation) (session : S)
      → IsAccounted p handed
      → 0 < count c.owner handed
      → promote key c session p ≡ (false, p)
  unfolding promote
  promote_handed p handed key c session a gone =
      elim (Bool-cases (still_ours (get p.inflight key) c)) [
        | inr lost ↦ rw lost
        | inl ours ↦
            let found = creation_ours (get p.inflight key) c ours in
            absurd (
              ground (
                arith,
                a.once c.owner,
                eqb_iff c.owner c.owner,
                tally-pop (λ (d : Creation). d.owner) p.inflight key c c.owner a.creation_keys
                    found,
              ))
      ]

  Reach_later :
      {u v : World S} (o : ℕ)
      → Reach max u v
      → IsAccounted u.pool u.handed
      → IsAccounted v.pool v.handed × (count o u.handed ≤ count o v.handed)
  Reach_later o here a = (a, omega arith)
  Reach_later o (next r st) a =
      let (b, le) = Reach_later o r a in
      (Step-IsAccounted max st b, omega (arith, le, handed_grows o st))

  -- A creation whose owner was handed over, by a close or because its loop was another, is never
  -- registered, whatever happens until its session is there: the caller that made it is turned away.
  pub handed_not_promoted :
      {u v : World S} (key : Key) (c : Creation) (session : S)
      → Reach max started u
      → 0 < count c.owner u.handed
      → Reach max u v
      → promote key c session v.pool ≡ (false, v.pool)
  handed_not_promoted {u} {v} key c session before gone r =
      let (a, le) = Reach_later c.owner r (Reach-IsAccounted max before) in
      promote_handed v.pool v.handed key c session a (omega arith)

  module _ (closed : ℕ → Bool) (current : ℕ) (key : Key) (c : Creation) where
    -- The creation is in flight, and its key has no entry.
    abbrev pub Creating : Pool S → Type 0
    Creating p = (get p.inflight key ≡ some c) × (has p.entries key ≡ false)

    make_room-Creating :
        (outcome : Outcome S) (evicted : List Eviction) (p : Pool S)
        → Creating p
        → Creating (make_room max outcome evicted p).2
    unfolding make_room
    make_room-Creating outcome evicted p (found, missing) = (
      found,
      elim (Bool-cases (has (evict_lru max p.entries).1 key)) [
        | inr out ↦ out
        | inl there ↦ cc (sym (evict_lru-has max p.entries key there) ∙ missing)
      ],
    )

    find_creation-Creating :
        (other : Key) (there : Option Creation) (evicted : List Eviction) (p : Pool S)
        → (other == key) ≡ false
        → Creating p
        → Creating (find_creation max closed current other there evicted p).2
    unfolding find_creation start_creation
    find_creation-Creating other none evicted p apart (found, missing) =
        let d : Creation = record { loop = current; owner = p.created } in
        make_room-Creating (creates d) evicted
          (record p { inflight = put p.inflight other d; created = suc p.created })
          (rw (get-put p.inflight other key d, apart) found, missing)
    find_creation-Creating other (some d) evicted p apart (found, missing) =
        elim (Bool-cases (usable closed current d.loop)) [
          | inl joined ↦ rw joined (make_room-Creating (joins d) evicted p (found, missing))
          | inr stale ↦
              let e : Creation = record { loop = current; owner = p.created } in
              rw stale (
                make_room-Creating (creates e) (evicted ++ evict_creation d ∷ [])
                  (record p {
                    inflight = put (pop p.inflight other) other e;
                    created = suc p.created;
                  })
                  (
                    rw
                        (
                          get-put (pop p.inflight other) other key e,
                          apart,
                          get-pop p.inflight other key,
                          apart,
                        )
                        found,
                    missing,
                  ))
        ]

    find_entry-Creating :
        (other : Key) (there : Option (Entry S)) (p : Pool S)
        → (other == key) ≡ false
        → Creating p
        → Creating (find_entry max closed current other there p).2
    unfolding find_entry
    find_entry-Creating other none p apart k =
        find_creation-Creating other (get p.inflight other) [] p apart k
    find_entry-Creating other (some e) p apart (found, missing) =
        elim (Bool-cases (usable closed current e.loop)) [
          | inl open_loop ↦ rw open_loop (found, rw (has-move_to_end p.entries other key) missing)
          | inr stale ↦ rw stale (
              find_creation-Creating other (get p.inflight other) (evict_entry e ∷ [])
                (record p { entries = pop p.entries other }) apart
                (found, rw (has-pop p.entries other key, apart) missing))
        ]

    get_locked_join :
        (p : Pool S)
        → usable closed current c.loop ≡ true
        → Creating p
        → get_locked max closed current key p ≡ make_room max (joins c) [] p
    unfolding get_locked find_entry find_creation
    get_locked_join p usable_loop (found, missing) =
        ap (λ o. find_entry max closed current key o p) (get_missing p.entries key missing)
        ∙ ap (λ o. find_creation max closed current key o [] p) found
        ∙ rw usable_loop

    get_locked-Creating :
        (other : Key) (p : Pool S)
        → usable closed current c.loop ≡ true
        → Creating p
        → Creating (get_locked max closed current other p).2
    unfolding get_locked
    get_locked-Creating other p usable_loop k = elim (Bool-cases (other == key)) [
      | inl same ↦
          rw (key_eq other key same, get_locked_join p usable_loop k)
            (make_room-Creating (joins c) [] p k)
      | inr apart ↦ find_entry-Creating other (get p.entries other) p apart k
    ]

    unfoldable pub after_gets : List Key → Pool S → Pool S
    after_gets [] p = p
    after_gets (other ∷ others) p = after_gets others (get_locked max closed current other p).2

    after_gets-Creating :
        (others : List Key) (p : Pool S)
        → usable closed current c.loop ≡ true
        → Creating p
        → Creating (after_gets others p)
    unfolding after_gets
    after_gets-Creating [] p usable_loop k = k
    after_gets-Creating (other ∷ others) p usable_loop k =
        after_gets-Creating others _ usable_loop (get_locked-Creating other p usable_loop k)

    -- While a creation is in flight on an open loop, and after any calls from that loop for whatever
    -- keys, each further call for its key joins it: there is one creation to a key.
    pub one_creation :
        (others : List Key) (p : Pool S)
        → usable closed current c.loop ≡ true
        → Creating p
        → (get_locked max closed current key (after_gets others p)).0 ≡ joins c
    unfolding make_room
    one_creation others p usable_loop k =
        ap (λ r. r.0)
          (get_locked_join (after_gets others p) usable_loop
            (after_gets-Creating others p usable_loop k))
