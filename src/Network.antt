-- ===== src/Network.antt =====
-- `VoiceNetwork` of client/voice/voice_network.cpp: the WebSocket session of the client. Every
-- handler and method is one step: the fields are atomics or stand under a mutex, and no step waits.
pub mod State
pub mod Commands
pub mod Toasts
pub mod Receive
pub mod Handle
pub mod Session
