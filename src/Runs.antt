-- ===== src/Runs.antt =====
-- packages/harness/deerflow/runtime/runs: the life of a run. `Status` is schemas.py, `Registry` the
-- in-memory part of manager.py, `Store` the interface of store/base.py with `Memory` as its
-- implementation of store/memory.py, and `Manager` the methods over both.
pub mod Status
pub mod Registry
pub mod Store
pub mod Manager
