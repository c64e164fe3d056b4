-- ===== src/Memory.antt =====
-- packages/harness/deerflow/agents/memory: the queue of updates of the long-term memory (Memory.Queue)
-- and the facts of the memory (Memory.Facts).
pub mod Queue
pub mod Facts
pub mod Normalize
pub mod Edits
