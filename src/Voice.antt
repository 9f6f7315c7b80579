-- ===== src/Voice.antt =====
-- The client's voice module: client/voice/voice.cpp, client/voice/apm.cpp and
-- client/voice/opus_codec.cpp.
pub mod Speaking
pub mod State
pub mod Transmit
pub mod Presence
pub mod Prefs
pub mod Activity
pub mod Apm
pub mod Codec
pub mod Incoming
pub mod Host
pub mod Lifecycle
pub mod Panel
pub mod Tests
