-- ===== src/Mcp/Owners.antt =====
-- Where the owner tasks of `MCPSessionPool` are: each in one place of the registry, or handed over to
-- be shut down.
use deer_seek_backend.Prelude.{
  ℕ, suc, ◌+◌, ◌<◌, ◌≡◌, refl, sym, ◌∙◌, Bool, true, false, Option, none, some, List, [], ◌∷◌, ◌++◌,
  map, ◌==◌, arith, nat_eq, string_eq, pair_eq, length, ltb, count, Distinct, if◌then◌else◌,
  Bool-cases, inl, inr, pair_beq_iff,
}
use mathlib.Core.List.{map-append}
use deer_seek_backend.Dict.{Dict, keys, get, has, put, pop}
use deer_seek_backend.Dict.Laws.{
  has-put, has-pop, has-pop_self, has-move_to_end, has_absent, put-Distinct, pop-Distinct,
  move_to_end-Distinct,
}
use deer_seek_backend.Dict.Tally.{tally, count-append, tally-pop, tally-put_new, tally-move_to_end}
use deer_seek_backend.Mcp.{
  Key, Entry, Creation, Eviction, Pool, Outcome, joins, creates, evict_entry, evict_creation,
  evict_lru, make_room, start_creation, usable, find_creation, find_entry, get_locked,
}

abbrev pub owners : List Eviction → List ℕ
owners = map (λ e. e.owner)

abbrev pub entry_owners : {S : Type 0} → Dict Key (Entry S) → ℕ → ℕ
entry_owners = tally (λ e. e.owner)

abbrev pub creation_owners : Dict Key Creation → ℕ → ℕ
creation_owners = tally (λ c. c.owner)

pub key_eq : (j k : Key) → (j == k) ≡ true → j ≡ k
key_eq j k h = (pair_beq_iff j k).0 h

-- Every owner task that was created so far is at exactly one place: it has an entry, it is creating a
-- session, or it was handed over. A key has one entry, or one creation, but not both.
pub record IsAccounted {S : Type 0} (p : Pool S) (handed : List ℕ) : Type 0 where
  pub entry_keys : Distinct (keys p.entries)
  pub creation_keys : Distinct (keys p.inflight)
  pub apart : (k : Key) → has p.entries k ≡ true → has p.inflight k ≡ false
  pub once :
      (o : ℕ)
      → entry_owners p.entries o + creation_owners p.inflight o + count o handed
        ≡ (if ltb o p.created then 1 else 0)

-- The place of a handed over owner does not matter.
handed_snoc :
    (v : Eviction) (evicted : List Eviction) (handed : List ℕ) (o : ℕ)
    → count o (v.owner ∷ owners evicted ++ handed) ≡ count o (owners (evicted ++ v ∷ []) ++ handed)
handed_snoc v [] handed o = refl
handed_snoc v (w ∷ evicted) handed o = ground (arith, handed_snoc v evicted handed o)

module _ {S : Type 0} where
  evict_lru-tally :
      (max : ℕ) (es : Dict Key (Entry S)) (o : ℕ)
      → count o (owners (evict_lru max es).0) + entry_owners (evict_lru max es).1 o
        ≡ entry_owners es o
  unfolding evict_lru
  evict_lru-tally max [] o = refl
  evict_lru-tally max ((k, e) ∷ es) o = ground (arith, evict_lru-tally max es o)

  pub evict_lru-has :
      (max : ℕ) (es : Dict Key (Entry S)) (k : Key)
      → has (evict_lru max es).1 k ≡ true
      → has es k ≡ true
  unfolding evict_lru has get
  evict_lru-has max [] k h = h
  evict_lru-has max ((j, e) ∷ es) k h = ground (arith, evict_lru-has max es k)

  evict_lru-Distinct :
      (max : ℕ) (es : Dict Key (Entry S))
      → Distinct (keys es)
      → Distinct (keys (evict_lru max es).1)
  unfolding evict_lru
  evict_lru-Distinct max [] d = tt
  evict_lru-Distinct max ((k, e) ∷ es) d = ground (arith, evict_lru-Distinct max es d.1)

  -- At most one entry less than the capacity is left.
  pub evict_lru-length :
      (max : ℕ) (es : Dict Key (Entry S)) → 0 < max → length (evict_lru max es).1 < max
  unfolding evict_lru
  evict_lru-length max [] h = h
  evict_lru-length max ((k, e) ∷ es) h = ground (arith, evict_lru-length max es h)

  -- What a step hands over, beside what was handed over before.
  abbrev pub Hands : Outcome S × List Eviction × Pool S → List ℕ → Type 0
  Hands r handed = IsAccounted r.2 (owners r.1 ++ handed)

  make_room-Hands :
      (max : ℕ) (outcome : Outcome S) (evicted : List Eviction) (p : Pool S) (handed : List ℕ)
      → IsAccounted p (owners evicted ++ handed)
      → Hands (make_room max outcome evicted p) handed
  unfolding make_room
  make_room-Hands max outcome evicted p handed a = record {
    entry_keys = evict_lru-Distinct max p.entries a.entry_keys;
    creation_keys = a.creation_keys;
    apart = λ k h. a.apart k (evict_lru-has max p.entries k h);
    once = λ o. rw (map-append (λ (e : Eviction). e.owner) evicted (evict_lru max p.entries).0) (
        omega (
          arith,
          a.once o,
          evict_lru-tally max p.entries o,
          count-append o (owners evicted) handed,
          count-append o (owners evicted ++ owners (evict_lru max p.entries).0) handed,
          count-append o (owners evicted) (owners (evict_lru max p.entries).0),
        ));
  }

  start_creation-Hands :
      (max current : ℕ) (key : Key) (evicted : List Eviction) (p : Pool S) (handed : List ℕ)
      → has p.entries key ≡ false
      → has p.inflight key ≡ false
      → IsAccounted p (owners evicted ++ handed)
      → Hands (start_creation max current key evicted p) handed
  unfolding start_creation
  start_creation-Hands max current key evicted p handed he hi a =
      let c : Creation = record { loop = current; owner = p.created } in
      make_room-Hands max (creates c) evicted
        (record p { inflight = put p.inflight key c; created = suc p.created }) handed
        record {
          entry_keys = a.entry_keys;
          creation_keys = put-Distinct p.inflight key c a.creation_keys;
          apart = λ k h. elim (Bool-cases (key == k)) [
            | inl same ↦
                let there : has p.entries key ≡ true = rw (key_eq key k same) h in
                cc (sym there ∙ he)
            | inr other ↦ rw (has-put p.inflight key k c, other) (a.apart k h)
          ];
          once = λ o.
              ground
                (arith, a.once o, tally-put_new (λ (d : Creation). d.owner) p.inflight key c o hi);
        }

  -- To take a creation out, and hand its owner over.
  pub pop_creation-IsAccounted :
      (p : Pool S) (key : Key) (c : Creation) (handed : List ℕ)
      → get p.inflight key ≡ some c
      → IsAccounted p handed
      → IsAccounted (record p { inflight = pop p.inflight key }) (c.owner ∷ handed)
  pop_creation-IsAccounted p key c handed found a = record {
    entry_keys = a.entry_keys;
    creation_keys = pop-Distinct p.inflight key a.creation_keys;
    apart = λ k h. ground (arith, has-pop p.inflight key k, a.apart k h);
    once = λ o. ground (
      arith,
      a.once o,
      tally-pop (λ (d : Creation). d.owner) p.inflight key c o a.creation_keys found,
    );
  }

  -- To take an entry out, and hand its owner over.
  pop_entry-IsAccounted :
      (p : Pool S) (key : Key) (e : Entry S) (handed : List ℕ)
      → get p.entries key ≡ some e
      → IsAccounted p handed
      → IsAccounted (record p { entries = pop p.entries key }) (e.owner ∷ handed)
  pop_entry-IsAccounted p key e handed found a = record {
    entry_keys = pop-Distinct p.entries key a.entry_keys;
    creation_keys = a.creation_keys;
    apart = λ k h. a.apart k (ground (arith, has-pop p.entries key k, h));
    once = λ o. ground (
      arith,
      a.once o,
      tally-pop (λ (d : Entry S). d.owner) p.entries key e o a.entry_keys found,
    );
  }

  pub permute-IsAccounted :
      (p : Pool S) (xs ys : List ℕ)
      → ((o : ℕ) → count o xs ≡ count o ys)
      → IsAccounted p xs
      → IsAccounted p ys
  permute-IsAccounted p xs ys same a = record {
    entry_keys = a.entry_keys;
    creation_keys = a.creation_keys;
    apart = a.apart;
    once = λ o. rw (← same o) (a.once o);
  }

module _ {S : Type 0} (max : ℕ) (closed : ℕ → Bool) (current : ℕ) where
  find_creation-Hands :
      (key : Key) (found : Option Creation) (evicted : List Eviction) (p : Pool S) (handed : List ℕ)
      → get p.inflight key ≡ found
      → has p.entries key ≡ false
      → IsAccounted p (owners evicted ++ handed)
      → Hands (find_creation max closed current key found evicted p) handed
  unfolding find_creation
  find_creation-Hands key none evicted p handed missing he a =
      start_creation-Hands max current key evicted p handed he (has_absent p.inflight key missing) a
  find_creation-Hands key (some c) evicted p handed found he a =
      elim (Bool-cases (usable closed current c.loop)) [
        | inl joined ↦ rw joined (make_room-Hands max (joins c) evicted p handed a)
        | inr stale ↦
            let popped = pop_creation-IsAccounted p key c (owners evicted ++ handed) found a in
            let regrouped =
              permute-IsAccounted _ (c.owner ∷ owners evicted ++ handed)
                (owners (evicted ++ evict_creation c ∷ []) ++ handed)
                (handed_snoc (evict_creation c) evicted handed) popped in
            rw stale (
              start_creation-Hands max current key (evicted ++ evict_creation c ∷ [])
                (record p { inflight = pop p.inflight key }) handed he (has-pop_self p.inflight key)
                regrouped)
      ]

  find_entry-Hands :
      (key : Key) (found : Option (Entry S)) (p : Pool S) (handed : List ℕ)
      → get p.entries key ≡ found
      → IsAccounted p handed
      → Hands (find_entry max closed current key found p) handed
  unfolding find_entry
  find_entry-Hands key none p handed missing a =
      find_creation-Hands key (get p.inflight key) [] p handed refl
        (has_absent p.entries key missing) a
  find_entry-Hands key (some e) p handed found a =
      elim (Bool-cases (usable closed current e.loop)) [
        | inl open_loop ↦ rw open_loop record {
          entry_keys = move_to_end-Distinct p.entries key a.entry_keys;
          creation_keys = a.creation_keys;
          apart = λ k h. a.apart k (rw (← has-move_to_end p.entries key k) h);
          once = λ o. ground (
            arith,
            a.once o,
            tally-move_to_end (λ (d : Entry S). d.owner) p.entries key o a.entry_keys,
          );
        }
        | inr stale ↦ rw stale (
            find_creation-Hands key (get p.inflight key) (evict_entry e ∷ [])
              (record p { entries = pop p.entries key }) handed refl (has-pop_self p.entries key)
              (pop_entry-IsAccounted p key e handed found a))
      ]

  pub get_locked-Hands :
      (key : Key) (p : Pool S) (handed : List ℕ)
      → IsAccounted p handed
      → Hands (get_locked max closed current key p) handed
  unfolding get_locked
  get_locked-Hands key p handed a = find_entry-Hands key (get p.entries key) p handed refl a
