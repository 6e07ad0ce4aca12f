-- ===== src/Network.antt =====
-- src/network: the buffer of blocks that wait for others, and the worker that handles messages.
pub mod Buffer
pub mod Message
pub mod Context
pub mod Processing
pub mod Worker
pub mod Sample
mod Tests
