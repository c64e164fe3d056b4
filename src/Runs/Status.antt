-- ===== src/Runs/Status.antt =====
-- packages/harness/deerflow/runtime/runs/schemas.py, and the tests of manager.py on a status.
use deer_seek_backend.Prelude.{Bool, true, false}

pub data RunStatus : Type 0 where
  pending running success error timeout interrupted : RunStatus

pub data DisconnectMode : Type 0 where
  cancel continue_run : DisconnectMode

-- `status in (RunStatus.pending, RunStatus.running)`
abbrev pub is_inflight : RunStatus → Bool
is_inflight pending = true
is_inflight running = true
is_inflight _ = false

abbrev pub is_interrupted : RunStatus → Bool
is_interrupted interrupted = true
is_interrupted _ = false

abbrev pub is_pending : RunStatus → Bool
is_pending pending = true
is_pending _ = false

abbrev pub is_running : RunStatus → Bool
is_running running = true
is_running _ = false
