-- ===== src/Network.antt =====
-- The network side: the frames of network/WebSocket.cpp.
pub mod WebSocket
mod Tests
