-- ===== src/Memory/Facts/Limit.antt =====
-- The number of facts after an update (updater.py).
use deer_seek_backend.Prelude.{
  ℕ, ◌≤◌, arith, String, Option, List, length, length-take, sorted_reverse,
}
use deer_seek_backend.Memory.Facts.{
  Fact, Memory, UpdateData, Config, enforce_limit, updated_facts, apply_updates, remove_facts,
  add_facts, fact_keys,
}

enforce_limit-bounded : (max : ℕ) (facts : List Fact) → length (enforce_limit max facts) ≤ max
unfolding enforce_limit
enforce_limit-bounded max facts =
    ground (arith, length-take max (sorted_reverse (λ (f : Fact). f.confidence) facts))

-- After an update there are at most `max_facts` facts.
pub apply_updates-bounded :
    (strip casefold : String → String) (c : Config) (now : ℕ) (thread_id : Option String)
    (m : Memory) (u : UpdateData)
    → length (apply_updates strip casefold c now thread_id m u).facts ≤ c.max_facts
unfolding apply_updates updated_facts
apply_updates-bounded strip casefold c now thread_id m u =
    let left = remove_facts u.facts_to_remove m.facts in
    enforce_limit-bounded c.max_facts
      (add_facts strip casefold c now thread_id u.new_facts (left, fact_keys strip casefold left)).0
