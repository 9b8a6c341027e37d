-- ===== src/Agent.antt =====
-- internal/agent: the loop in which the language model calls tools, the messages that it exchanges,
-- and the registry of the tools.
pub mod Messages
pub mod Monad
pub mod Calls
pub mod Loop
pub mod Tools
