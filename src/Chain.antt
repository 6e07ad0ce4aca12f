-- ===== src/Chain.antt =====
-- src/blockchain/mod.rs: the block trees of Prism.
-- `Chain/State.antt` is the state, `Chain/Merge.antt` the merge operators of the column families,
-- `Chain/Insert.antt` the insertion of a block, `Chain/Query.antt` what the other modules ask,
-- `Chain/Diff.antt` the change of votes between two tips; the others hold proofs.
pub mod State
pub mod Merge
pub mod Insert
pub mod Query
pub mod Diff
pub mod Paths
pub mod Proposers
pub mod Voters
pub mod Genesis
pub mod Forest
pub mod Extends
pub mod Votes
pub mod Sample
mod Tests
