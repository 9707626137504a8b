-- ===== src/Llm.antt =====
-- llm/: the requests, tools and providers that every part of the program shares.
pub mod Tools
pub mod Loop
pub mod Router
pub mod Toolset
pub mod Pipeline
