-- ===== src/Audio.antt =====
-- The audio endpoints of client/voice/audio_io.cpp.
pub mod Device
pub mod Ring
pub mod Capture
pub mod Float
pub mod Mixer
pub mod Playback
