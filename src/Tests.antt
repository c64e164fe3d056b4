-- ===== src/Tests.antt =====
-- Concrete runs of the modelled code, and the properties applied to them.
mod RunTests
mod StreamTests
mod LlmTests
mod EventTests
mod LoopTests
mod ToolTests
mod ThreadTests
mod McpTests
mod MemoryTests
mod SubagentTests
mod LoginTests
mod FactTests
mod OutputTests
mod JournalTests
