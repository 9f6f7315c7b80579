-- ===== src/Lib.antt =====
-- The voice-chat client of the repository, the library in client/voice that is loaded into the
-- game: it captures the microphone, sends frames to the voice service over a WebSocket, plays what
-- comes back, and tells the game who speaks.
--
-- The parts and their files:
--   Audio     client/voice/audio_io.cpp. Ring: `MonoRing` with its 32-bit counters. Capture: the
--             callback that cuts the stream into frames of 960 samples. Mixer and Playback: the
--             output callback, the sources, their volumes and mutes, and the echo reference.
--             Device: the choice of a device. Float: the float operations, a parameter.
--   Json      client/voice/voice_network.cpp, the reader of fields and rosters, and the text of
--             the authentication. Json/Numbers: laws of numbers and strings in a message.
--   Wire      the same file: the bytes of the audio frames and of the keep-alive, and the decoder.
--   Network   the same file: `VoiceNetwork`. State: its fields, and the messages handed to the
--             WebSocket. Commands: every `Send` method. Toasts: the notifications. Receive and
--             Handle: the text messages of the service. Session: the WebSocket callback,
--             authentication, suspending and resuming.
--   Voice     client/voice/voice.cpp. Speaking: the speakers' maps, l2voice_speak.ini and the
--             game's query. Transmit: `OnCaptureFrame`. Incoming: `OnIncomingPacket`, and local
--             mute and volume. Presence: `RefreshClientPorts` and `OnRenderFrame`. Prefs: the
--             settings. Panel: the devices, the name and the overlay's snapshot. Host: the host of
--             the service. Lifecycle: `Init` and `Shutdown`. Apm and Activity: the audio
--             processing of client/voice/apm.cpp and its voice detector. Codec: the wrappers of
--             client/voice/opus_codec.cpp.
--   Loader    client/dllmain.cpp: the worker that starts the module, the polling, the unloading.
--   Overlay   client/voice/overlay.cpp. Json: the JSON readers and `escapeJSON`. Support: the support
--             chat, its polls and what it sends. Input: the hooks on the mouse. Window: the window
--             procedure, where keys are bound. Ini and Names: the hooks through which the game asks
--             who speaks, and the names of keys and game masters. Screen: the hooks on the end of a
--             scene and on the reset of the device. Draw: `DrawPanel` with everything it draws. Its
--             Members: the rows and tabs of the channels. Proximity: the tab of the speakers nearby.
--             MiniList: the icon and the list while the panel is minimized. Position: the places that
--             are saved. SupportWindow: the window of the support chat. Banner: toasts and the clan's
--             mode. TabBar: `L2TabBar`. Main: the whole frame. Talk: what drawing says to the service.
--   Base      shared names, byte strings, integers and maps.
--
-- How they meet: a captured frame goes from Voice.Transmit through Network.Commands and Wire to
-- the WebSocket; a binary message goes from Network.Session through Wire to Voice.Incoming, which
-- puts the samples in a ring of Audio.Playback; the output callback mixes the rings. A text message
-- goes through Network.Handle and Json. Each method and each event is taken as one step that ends
-- before the next begins (`Step` in Network/Session/Reach and in Loader/Running). That simplifies the
-- source: its mutexes guard the lists and texts, but not the flags of the connection, so that the
-- handlers of Close and Error and `SuspendWs` can come in the middle of `TrySendAuth`. Such
-- interleavings inside a method are not modelled.
--
-- Conventions: a C string is the list of its bytes without the NUL. Unsigned integers are numbers
-- with the wrap written out. A clock is an argument. What a call hands to a library (a message to
-- the WebSocket, a line to an ini file) is collected in the state, oldest first. A map is an
-- association list, whose order stands for the unspecified order of iteration. An exception that
-- leaves a callback is `none`. The keep-alive threads are counted, and each of their rounds ends in a
-- step, also after `Shutdown`. A thread that the support chat starts is one step, and the function
-- from a URL to the answer is its argument. A frame of the overlay takes what the widgets of Dear
-- ImGui answer as an argument (`PanelInput`), and the threads it starts are collected.
--
-- Fuel: the decimal numeral of a number takes the number itself as fuel, and the loop over a roster
-- the length of its text; both measures fall in every step. The wait for the window of the game has
-- the 100 tries of the source.
--
-- Not modelled: places, sizes and most colours of what is drawn, the textures and the setting of
-- hooks, logging, the libraries (miniaudio, libopus, RNNoise, Speex, the WebSocket and HTTP clients,
-- Dear ImGui, the functions of Windows), and the service and the bridge in voice-service and l2j-bridge, which are programs of their own.
pub mod Base
pub mod Audio
pub mod Json
pub mod Wire
pub mod Network
pub mod Overlay
pub mod Voice
pub mod Loader
