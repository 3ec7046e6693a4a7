-- ===== src/Protocol.antt =====
-- internal/agent/protocol: the chunks of the stream between the backend and the browser.
pub mod Chunk
pub mod Replay
pub mod State
pub mod Valid
mod Examples
