-- ===== src/Agent.antt =====
-- agent/: the texts that an agent refuses, and one run of it.
pub mod Guardrails
pub mod Running
