-- ===== src/Journal/Buffer.antt =====
-- The write buffer of the events (journal.py). An event is of any type `E`; the store is the list of
-- the events that it took. A batch that the store refuses leaves the store as it was.
use deer_seek_backend.Prelude.{
  ℕ, Bool, true, false, not, ◌||◌, List, [], ◌∷◌, ◌++◌, length, take, drop, leb, if◌then◌else◌,
}

-- `pending` says whether a task that flushes is there, `batch` is what it has not handed over yet, and
-- `flushing` the batch of `flush` itself that the store has not answered yet.
pub record Journal (E : Type 0) : Type 0 where
  pub buffer : List E
  pub batch : List E
  pub flushing : List E
  pub pending : Bool
  pub store : List E

abbrev pub fresh : {E : Type 0} → Journal E
fresh = record { buffer = []; batch = []; flushing = []; pending = false; store = [] }

module _ {E : Type 0} where
  unfoldable pub is_empty : List E → Bool
  is_empty [] = true
  is_empty (e ∷ es) = false

  -- `_flush_sync`, in or outside an event loop
  unfoldable pub flush_sync : Bool → Journal E → Journal E
  unfolding is_empty
  flush_sync in_loop j =
      if is_empty j.buffer || j.pending || not in_loop
      then j
      else record j { buffer = []; batch = j.buffer; pending = true }

  unfoldable pub put : ℕ → Bool → E → Journal E → Journal E
  unfolding flush_sync
  put flush_threshold in_loop e j =
      let j' = record j { buffer = j.buffer ++ e ∷ [] } in
      if leb flush_threshold (length j'.buffer) then flush_sync in_loop j' else j'

  -- The end of `_flush_async`: the store took the batch, or raised.
  unfoldable pub flush_async : Bool → Journal E → Journal E
  flush_async taken j =
      if taken
      then record j { store = j.store ++ j.batch; batch = [] }
      else record j { buffer = j.batch ++ j.buffer; batch = [] }

  abbrev pub on_flush_done : Journal E → Journal E
  on_flush_done j = record j { pending = false }

  -- One round of the loop of `flush`, before and after it waits for the store.
  unfoldable pub flush_take : ℕ → Journal E → Journal E
  flush_take flush_threshold j = record j {
    buffer = drop flush_threshold j.buffer;
    flushing = take flush_threshold j.buffer;
  }

  unfoldable pub flush_answer : Bool → Journal E → Journal E
  flush_answer taken j =
      if taken
      then record j { store = j.store ++ j.flushing; flushing = [] }
      else record j { buffer = j.flushing ++ j.buffer; flushing = [] }

  -- The loop of `flush`, with the store's answers to its batches, where nothing is put while it waits for
  -- them: whether it ended without raising.
  unfoldable pub flush_loop : ℕ → List Bool → Journal E → Bool × Journal E
  unfolding is_empty flush_take flush_answer
  flush_loop flush_threshold [] j = (is_empty j.buffer, j)
  flush_loop flush_threshold (taken ∷ answers) j =
      let after = flush_answer taken (flush_take flush_threshold j) in
      let next = flush_loop flush_threshold answers after in
      if is_empty j.buffer then (true, j) else if taken then next else (false, after)
