-- ===== src/Client.antt =====
-- client-windows/webui/src/lib/api.ts: the requests to the agent, and the framing of the catalog
-- stream.
pub mod Frames
pub mod Reading
pub mod Delivery
pub mod Calls
pub mod Answers
