-- ===== src/Tests/McpTests.antt =====
-- Runs of packages/harness/deerflow/mcp/session_pool.py. A session is a name, and all loops are open.
use deer_seek_backend.Prelude.{
  ℕ, ◌≡◌, ◌<◌, refl, String, Bool, true, false, [], ◌∷◌, none, some, length, count, arith, nat_eq,
  string_eq, pair_eq,
}
use deer_seek_backend.Dict.{get, has, put, pop}
use deer_seek_backend.Mcp.{
  Key, Creation, empty, joins, creates, get_locked, find_entry, find_creation, start_creation,
  make_room, evict_lru, promote, close_scope, take_out, still_ours,
}
use deer_seek_backend.Mcp.Owners.{IsAccounted}
use deer_seek_backend.Mcp.Steps.{
  World, started, after_get, after_close, got, promoted, scope_closed, Reach, here, next,
  Reach-IsAccounted,
}
use deer_seek_backend.Mcp.Callers.{handed_not_promoted, after_gets, one_creation}
use deer_seek_backend.Mcp.Capacity.{two_creations, overlapping_creations}
use deer_seek_backend.Mcp.Teardown.{
  is_running, IsShutDown, shutdown_entry, shutdown_evicted, shutdown_sync, every_way-IsShutDown,
}

abbrev all_open : ℕ → Bool
all_open loop = false

abbrev github : Key
github = ("github", "thread")

abbrev files : Key
files = ("files", "thread")

abbrev first_creation : Creation
first_creation = record { loop = 1; owner = 0 }

-- A call for a session that is not there.
abbrev creating : World String
creating = after_get 8 all_open 1 github started

abbrev serving : World String
serving = record creating { pool = (promote github first_creation "session" creating.pool).1 }

-- The scope is closed while the session is created.
abbrev closing : World String
closing = after_close 8 (close_scope "thread" creating.pool) creating

creating-Reach : Reach 8 started creating
creating-Reach = next here (got all_open 1 github)

serving-Reach : Reach 8 started serving
serving-Reach = next creating-Reach (promoted github first_creation "session")

closing-Reach : Reach 8 started closing
closing-Reach = next creating-Reach (scope_closed "thread")

served :
    get serving.pool.entries github ≡ some (record { session = "session"; loop = 1; owner = 0 })
unfolding get_locked find_entry find_creation start_creation make_room evict_lru promote still_ours
    get put pop
served = refl

Reach-IsAccounted_example : IsAccounted serving.pool serving.handed
Reach-IsAccounted_example = Reach-IsAccounted 8 serving-Reach

closed_owner : 0 < count 0 closing.handed
unfolding get_locked find_entry find_creation start_creation make_room evict_lru close_scope
    take_out get put
closed_owner = omega arith

handed_not_promoted_example :
    promote github first_creation "session" closing.pool ≡ (false, closing.pool)
handed_not_promoted_example =
    handed_not_promoted 8 github first_creation "session" closing-Reach closed_owner here

creating_github :
    (get creating.pool.inflight github ≡ some first_creation)
    × (has creating.pool.entries github ≡ false)
unfolding get_locked find_entry find_creation start_creation make_room evict_lru get put has
creating_github = (refl, refl)

one_creation_example :
    (get_locked 8 all_open 1 github
      (after_gets 8 all_open 1 github first_creation (files ∷ github ∷ []) creating.pool)).0
    ≡ joins first_creation
one_creation_example =
    one_creation 8 all_open 1 github first_creation (files ∷ github ∷ []) creating.pool refl
      creating_github

creates_github : (get_locked {S = String} 1 all_open 1 github empty).0 ≡ creates first_creation
unfolding get_locked find_entry find_creation start_creation make_room evict_lru get put has
creates_github = refl

nothing_known :
    (key : Key)
    → (get (empty {S = String}).entries key ≡ none) × (get (empty {S = String}).inflight key ≡ none)
unfolding get
nothing_known key = (refl, refl)

overlapping_creations_example :
    length (two_creations {S = String} 1 all_open 1 github files "a" "b" empty).entries ≡ 2
overlapping_creations_example =
    overlapping_creations 1 all_open 1 github files "a" "b" empty refl refl (nothing_known github)
      (nothing_known files) refl

every_way-IsShutDown_example :
    IsShutDown is_running true (shutdown_entry is_running true)
    × IsShutDown is_running true (shutdown_evicted is_running true)
    × IsShutDown is_running true (shutdown_sync is_running true)
every_way-IsShutDown_example = every_way-IsShutDown is_running true
