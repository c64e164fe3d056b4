-- ===== src/Mcp/Steps.antt =====
-- The registry of `MCPSessionPool` under every interleaving of its callers, each locked part being one
-- step.
use deer_seek_backend.Prelude.{
  ℕ, ◌+◌, ◌≡◌, refl, String, Bool, true, false, not, ◌&&◌, Option, none, some, List, [], ◌∷◌, ◌++◌,
  map, ◌==◌, arith, nat_eq, string_eq, pair_eq, keep, count, contains, Distinct, if◌then◌else◌,
  Bool-cases, inl, inr, pair_beq_iff, eqb_iff,
}
use deer_seek_backend.Dict.{Dict, keys, get, has}
use deer_seek_backend.Dict.Laws.{has-put, has-pop, put-Distinct, pop-Distinct, contains-keys}
use deer_seek_backend.Dict.Tally.{count-keep, tally-pop, tally-put_new}
use deer_seek_backend.Mcp.{
  Key, Entry, Creation, Eviction, Pool, empty, evict_entry, evict_creation, get_locked, still_ours,
  promote, abandon, take_out, close_scope, close_server, close_all,
}
use deer_seek_backend.Mcp.Owners.{
  owners, entry_owners, creation_owners, IsAccounted, pop_creation-IsAccounted, get_locked-Hands,
}

-- The registry, and the owners that were handed over to be shut down, or that failed.
pub record World (S : Type 0) : Type 0 where
  pub pool : Pool S
  pub handed : List ℕ

abbrev pub started : {S : Type 0} → World S
started = record { pool = empty; handed = [] }

-- The owner of a creation that is dropped, if its record is the live one.
abbrev pub dropped : {S : Type 0} → Key → Creation → Pool S → List ℕ
dropped key c p = if still_ours (get p.inflight key) c then c.owner ∷ [] else []

-- The world after a method that hands owners over.
abbrev pub hand_over : {S : Type 0} → List Eviction → Pool S → List ℕ → World S
hand_over evicted p handed = record { pool = p; handed = owners evicted ++ handed }

module _ {S : Type 0} (max : ℕ) where
  abbrev pub after_get : (ℕ → Bool) → ℕ → Key → World S → World S
  after_get closed current key w =
      let (_, evicted, p) = get_locked max closed current key w.pool in hand_over evicted p w.handed

  abbrev pub after_failure : Key → Creation → World S → World S
  after_failure key c w = record {
    pool = abandon key c w.pool;
    handed = dropped key c w.pool ++ w.handed;
  }

  abbrev pub after_close : List Eviction × Pool S → World S → World S
  after_close r w = hand_over r.0 r.1 w.handed

  pub data Step (w : World S) : World S → Type 0 where
    got : (closed : ℕ → Bool) (current : ℕ) (key : Key) → Step w (after_get closed current key w)
    promoted :
        (key : Key) (c : Creation) (session : S)
        → Step w (record w { pool = (promote key c session w.pool).1 })
    failed : (key : Key) (c : Creation) → Step w (after_failure key c w)
    scope_closed : (scope : String) → Step w (after_close (close_scope scope w.pool) w)
    server_closed : (server : String) → Step w (after_close (close_server server w.pool) w)
    all_closed : Step w (after_close (close_all w.pool) w)

  pub data Reach (w : World S) : World S → Type 0 where
    here : Reach w w
    next : {u v : World S} → Reach w u → Step u v → Reach w v

pub creation_ours :
    (found : Option Creation) (c : Creation) → still_ours found c ≡ true → found ≡ some c
unfolding still_ours
creation_ours (some d) c ours = ground (arith, eqb_iff d.loop c.loop, eqb_iff d.owner c.owner)
creation_ours none c ours = cc

contains_kept {κ} :
    {V : Type κ} (test : Key → Bool) (d : Dict Key V) (k : Key)
    → contains k (keys (keep (λ e. test e.0) d)) ≡ (test k && contains k (keys d))
contains_kept test [] k = ground arith
contains_kept test ((i, v) ∷ d) k = ground (arith, contains_kept test d k, pair_beq_iff i k)

has_kept {κ} :
    {V : Type κ} (test : Key → Bool) (d : Dict Key V) (k : Key)
    → has (keep (λ e. test e.0) d) k ≡ (test k && has d k)
has_kept test d k =
    ground
      (arith, contains_kept test d k, contains-keys d k, contains-keys (keep (λ e. test e.0) d) k)

handed_all :
    {S : Type 0} (es : Dict Key (Entry S)) (cs : Dict Key Creation) (handed : List ℕ) (o : ℕ)
    → count o (owners (map (λ e. evict_entry e.1) es ++ map (λ c. evict_creation c.1) cs) ++ handed)
      ≡ entry_owners es o + creation_owners cs o + count o handed
handed_all [] [] handed o = omega arith
handed_all {S} [] (c ∷ cs) handed o =
    let rest = handed_all {S = S} [] cs handed o in ground (arith, rest)
handed_all (e ∷ es) cs handed o = ground (arith, handed_all es cs handed o)

keep-Distinct {κ} :
    {V : Type κ} (test : Key → Bool) (d : Dict Key V)
    → Distinct (keys d)
    → Distinct (keys (keep (λ e. test e.0) d))
keep-Distinct test [] h = tt
keep-Distinct test ((i, v) ∷ d) h = ground (arith, keep-Distinct test d h.1, contains_kept test d i)

module _ {S : Type 0} where
  -- A key that has a creation has no entry.
  no_entry :
      (p : Pool S) (handed : List ℕ) (key : Key) (c : Creation)
      → IsAccounted p handed
      → get p.inflight key ≡ some c
      → has p.entries key ≡ false
  unfolding has
  no_entry p handed key c a found = elim (Bool-cases (has p.entries key)) [
    | inr missing ↦ missing
    | inl there ↦ ground (arith, a.apart key there, found)
  ]

  promote-IsAccounted :
      (p : Pool S) (handed : List ℕ) (key : Key) (c : Creation) (session : S)
      → IsAccounted p handed
      → IsAccounted (promote key c session p).1 handed
  unfolding promote
  promote-IsAccounted p handed key c session a =
      elim (Bool-cases (still_ours (get p.inflight key) c)) [
        | inr lost ↦ rw lost a
        | inl ours ↦
            let found = creation_ours (get p.inflight key) c ours in
            let missing = no_entry p handed key c a found in
            let e : Entry S = record { session = session; loop = c.loop; owner = c.owner } in
            rw ours record {
              entry_keys = put-Distinct p.entries key e a.entry_keys;
              creation_keys = pop-Distinct p.inflight key a.creation_keys;
              apart = λ k h.
                  ground (arith, has-put p.entries key k e, has-pop p.inflight key k, a.apart k);
              once = λ o. ground (
                arith,
                a.once o,
                tally-pop (λ (d : Creation). d.owner) p.inflight key c o a.creation_keys found,
                tally-put_new (λ (d : Entry S). d.owner) p.entries key e o missing,
              );
            }
      ]

  abandon-IsAccounted :
      (p : Pool S) (handed : List ℕ) (key : Key) (c : Creation)
      → IsAccounted p handed
      → IsAccounted (abandon key c p) (dropped key c p ++ handed)
  unfolding abandon
  abandon-IsAccounted p handed key c a = elim (Bool-cases (still_ours (get p.inflight key) c)) [
    | inr lost ↦ rw lost a
    | inl ours ↦
        rw ours
          (pop_creation-IsAccounted p key c handed (creation_ours (get p.inflight key) c ours) a)
  ]

  take_out-IsAccounted :
      (test : Key → Bool) (p : Pool S) (handed : List ℕ)
      → IsAccounted p handed
      → IsAccounted (take_out test p).1 (owners (take_out test p).0 ++ handed)
  unfolding take_out
  take_out-IsAccounted test p handed a = record {
    entry_keys = keep-Distinct (λ k. not (test k)) p.entries a.entry_keys;
    creation_keys = keep-Distinct (λ k. not (test k)) p.inflight a.creation_keys;
    apart = λ k h. ground (
      arith,
      h,
      has_kept (λ k. not (test k)) p.entries k,
      has_kept (λ k. not (test k)) p.inflight k,
      a.apart k,
    );
    once = λ o. omega (
      arith,
      a.once o,
      handed_all (keep (λ e. test e.0) p.entries) (keep (λ c. test c.0) p.inflight) handed o,
      count-keep (λ (e : Key × Entry S). e.1.owner) (λ e. test e.0) o p.entries,
      count-keep (λ (c : Key × Creation). c.1.owner) (λ c. test c.0) o p.inflight,
    );
  }

module _ {S : Type 0} (max : ℕ) where
  pub Step-IsAccounted :
      {u v : World S} → Step max u v → IsAccounted u.pool u.handed → IsAccounted v.pool v.handed
  unfolding close_scope close_server close_all
  Step-IsAccounted {u} (got closed current key) a =
      get_locked-Hands max closed current key u.pool u.handed a
  Step-IsAccounted {u} (promoted key c session) a =
      promote-IsAccounted u.pool u.handed key c session a
  Step-IsAccounted {u} (failed key c) a = abandon-IsAccounted u.pool u.handed key c a
  Step-IsAccounted {u} (scope_closed scope) a =
      take_out-IsAccounted (λ k. k.1 == scope) u.pool u.handed a
  Step-IsAccounted {u} (server_closed server) a =
      take_out-IsAccounted (λ k. k.0 == server) u.pool u.handed a
  Step-IsAccounted {u} all_closed a = take_out-IsAccounted (λ k. true) u.pool u.handed a

  started-IsAccounted : IsAccounted {S = S} started.pool []
  unfolding has get
  started-IsAccounted = record {
    entry_keys = tt;
    creation_keys = tt;
    apart = λ k h. refl;
    once = λ o. ground arith;
  }

  -- However the callers interleave, each owner task that was ever created is at exactly one place: it
  -- has an entry, it is creating a session, or it was handed over to be shut down. A key never has
  -- two entries, two creations, or both.
  pub Reach-IsAccounted : {w : World S} → Reach max started w → IsAccounted w.pool w.handed
  Reach-IsAccounted here = started-IsAccounted
  Reach-IsAccounted (next r st) = Step-IsAccounted st (Reach-IsAccounted r)
