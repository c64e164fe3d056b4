-- ===== src/Mcp.antt =====
-- packages/harness/deerflow/mcp/session_pool.py: the registry of `MCPSessionPool`. What a method does
-- under `_lock` is one step. A task that owns a session is a number, which stands for its future and
-- its close event as well; an event loop is a number too.
pub mod Owners
pub mod Steps
pub mod Callers
pub mod Capacity
pub mod Teardown
use deer_seek_backend.Prelude.{
  ℕ, suc, String, Bool, true, false, not, ◌&&◌, Option, none, some, List, [], ◌∷◌, ◌++◌, map, ◌==◌,
  Eq, nat_eq, string_eq, pair_eq, option_eq, keep, length, ltb, if◌then◌else◌,
}
use deer_seek_backend.Dict.{Dict, get, put, pop, move_to_end}

-- A server's name and a scope.
abbrev pub Key : Type 0
Key = String × String

pub record Entry (S : Type 0) : Type 0 where
  pub session : S
  pub loop : ℕ
  pub owner : ℕ

pub record Creation : Type 0 where
  pub loop : ℕ
  pub owner : ℕ

-- An owner that has to be shut down. The owner of a creation has to be cancelled.
pub record Eviction : Type 0 where
  pub loop : ℕ
  pub owner : ℕ
  pub cancel : Bool

-- `created` counts the owner tasks, so that it is the next one's number.
pub record Pool (S : Type 0) : Type 0 where
  pub entries : Dict Key (Entry S)
  pub inflight : Dict Key Creation
  pub created : ℕ

abbrev pub empty : {S : Type 0} → Pool S
empty = record { entries = []; inflight = []; created = 0 }

-- What `get_session` goes on with after its first phase.
pub data Outcome (S : Type 0) : Type 0 where
  returns : S → Outcome S
  joins : Creation → Outcome S
  creates : Creation → Outcome S

abbrev pub same_creation : Creation → Creation → Bool
same_creation c d = c.loop == d.loop && c.owner == d.owner

abbrev pub evict_creation : Creation → Eviction
evict_creation c = record { loop = c.loop; owner = c.owner; cancel = true }

module _ {S : Type 0} where
  abbrev pub evict_entry : Entry S → Eviction
  evict_entry e = record { loop = e.loop; owner = e.owner; cancel = false }

  -- The loop that evicts the oldest entries at capacity.
  unfoldable pub evict_lru : ℕ → Dict Key (Entry S) → List Eviction × Dict Key (Entry S)
  evict_lru max [] = ([], [])
  evict_lru max ((k, e) ∷ es) =
      let (evicted, left) = evict_lru max es in
      if ltb (suc (length es)) max then ([], (k, e) ∷ es) else (evict_entry e ∷ evicted, left)

  unfoldable pub make_room :
      ℕ → Outcome S → List Eviction → Pool S → Outcome S × List Eviction × Pool S
  unfolding evict_lru
  make_room max outcome evicted p =
      let (more, left) = evict_lru max p.entries in
      (outcome, evicted ++ more, record p { entries = left })

  -- The caller becomes the creator: the record of its creation is there before it waits.
  unfoldable pub start_creation :
      ℕ → ℕ → Key → List Eviction → Pool S → Outcome S × List Eviction × Pool S
  unfolding make_room
  start_creation max current key evicted p =
      let creation : Creation = record { loop = current; owner = p.created } in
      make_room max (creates creation) evicted
        (record p { inflight = put p.inflight key creation; created = suc p.created })

-- Whether a loop is the caller's and open.
abbrev pub usable : (ℕ → Bool) → ℕ → ℕ → Bool
usable closed current loop = loop == current && not (closed loop)

module _ {S : Type 0} (max : ℕ) (closed : ℕ → Bool) (current : ℕ) where
  unfoldable pub find_creation :
      Key → Option Creation → List Eviction → Pool S → Outcome S × List Eviction × Pool S
  unfolding start_creation
  find_creation key none evicted p = start_creation max current key evicted p
  find_creation key (some c) evicted p =
      if usable closed current c.loop
      then make_room max (joins c) evicted p
      else start_creation max current key (evicted ++ evict_creation c ∷ [])
          (record p { inflight = pop p.inflight key })

  unfoldable pub find_entry : Key → Option (Entry S) → Pool S → Outcome S × List Eviction × Pool S
  unfolding find_creation
  find_entry key none p = find_creation key (get p.inflight key) [] p
  find_entry key (some e) p =
      if usable closed current e.loop
      then (returns e.session, [], record p { entries = move_to_end p.entries key })
      else find_creation key (get p.inflight key) (evict_entry e ∷ [])
          (record p { entries = pop p.entries key })

  -- The first phase of `get_session`
  unfoldable pub get_locked : Key → Pool S → Outcome S × List Eviction × Pool S
  unfolding find_entry
  get_locked key p = find_entry key (get p.entries key) p

-- Whether the record of a creation is still the live one.
unfoldable pub still_ours : Option Creation → Creation → Bool
still_ours none c = false
still_ours (some d) c = same_creation d c

module _ {S : Type 0} where
  -- The fourth phase of `get_session`: whether the session is registered.
  unfoldable pub promote : Key → Creation → S → Pool S → Bool × Pool S
  unfolding still_ours
  promote key c session p =
      if still_ours (get p.inflight key) c
      then (
        true,
        record p {
          inflight = pop p.inflight key;
          entries =
              put p.entries key (record { session = session; loop = c.loop; owner = c.owner });
        },
      )
      else (false, p)

  -- The record of a creation that failed or was cancelled is dropped.
  unfoldable pub abandon : Key → Creation → Pool S → Pool S
  unfolding still_ours
  abandon key c p =
      if still_ours (get p.inflight key) c then record p { inflight = pop p.inflight key } else p

  -- The locked part of the methods that close: the entries and creations of some keys are taken out.
  unfoldable pub take_out : (Key → Bool) → Pool S → List Eviction × Pool S
  take_out test p = (
    map (λ e. evict_entry e.1) (keep (λ e. test e.0) p.entries)
        ++ map (λ c. evict_creation c.1) (keep (λ c. test c.0) p.inflight),
    record p {
      entries = keep (λ e. not (test e.0)) p.entries;
      inflight = keep (λ c. not (test c.0)) p.inflight;
    },
  )

  unfoldable pub close_scope : String → Pool S → List Eviction × Pool S
  unfolding take_out
  close_scope scope = take_out (λ k. k.1 == scope)

  unfoldable pub close_server : String → Pool S → List Eviction × Pool S
  unfolding take_out
  close_server server = take_out (λ k. k.0 == server)

  -- The locked part of `close_all` and `close_all_sync`
  unfoldable pub close_all : Pool S → List Eviction × Pool S
  unfolding take_out
  close_all = take_out (λ k. true)
