-- ===== src/LlmErrors.antt =====
-- packages/harness/deerflow/agents/middlewares/llm_error_handling_middleware.py: the circuit
-- breaker, the classification of provider errors, and the retry loop around a model call.
pub mod Breaker
pub mod Classify
pub mod Call
