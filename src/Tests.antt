-- ===== src/Tests.antt =====
-- Runs of the model on concrete inputs.
pub mod Codec
pub mod Sessions
pub mod Pages
pub mod TaskCalls
pub mod Fetches
pub mod Flights
pub mod Replies
pub mod Traces
pub mod Identity
pub mod ServiceCalls
pub mod Dispatches
pub mod Endings
