-- ===== src/Resolve.antt =====
-- resolve: the index of the server's domain rules, and how names are looked up.
pub mod DomainIndex
pub mod DomainRules
pub mod Race
pub mod Candidates
pub mod Answering
pub mod Coordination
pub mod Sharing
pub mod Gathered
pub mod Selected
mod Examples
