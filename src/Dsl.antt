-- ===== src/Dsl.antt =====
-- core/dsl.go and the query type of core/types.go. The parts are in the modules below.
pub mod Query
pub mod Tokens
pub mod Parser
pub mod Selector
pub mod Grammar
pub mod Correct
mod Samples
