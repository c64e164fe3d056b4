-- ===== src/Journal.antt =====
-- packages/harness/deerflow/runtime/journal.py: the journal of a run. Journal.Buffer is the write buffer
-- of its events, Journal.Tokens the count of the tokens that its models used.
pub mod Buffer
pub mod Order
pub mod Flush
pub mod Tokens
pub mod Once
