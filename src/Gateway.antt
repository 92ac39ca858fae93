-- ===== src/Gateway.antt =====
-- The checks on a proxied LLM call, of llm_gateway in packages/core/canyonos_core: which model an
-- id names, what a call could cost, and whether the agent may make it.
pub mod Models
pub mod Pricing
pub mod Routes
mod Tests
