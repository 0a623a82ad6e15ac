-- ===== src/Utils.antt =====
-- utils: identifiers, contexts, retries and the primitives of concurrency.
pub mod IdGenerator
pub mod Context
pub mod Retry
pub mod ByteSize
pub mod Semaphore
pub mod Future
pub mod Dir
