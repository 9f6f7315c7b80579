-- ===== src/Wire.antt =====
-- The binary frames of client/voice/voice_network.cpp: the 8-byte header that the client sends, and
-- the 10-byte header that it receives, with the gain and the pan of the service.
pub mod RoundTrip
mod Tests
use l2voice_chat.Base.{
  ℕ, ◌+◌, ◌-◌, ◌*◌, ◌/◌, ◌%◌, ◌^◌, Bool, not, ◌||◌, List, [], ◌∷◌, ◌++◌, Option, none, some, length,
  take, ltb, ◌==◌, if◌then◌else◌, Bytes,
}
use l2voice_chat.Base.Int.{ℤ, pos, negsuc}

-- `memcpy` of a `uint32_t`, which is little-endian on the client's machines.
unfoldable pub word_bytes : ℕ → Bytes → Bytes
word_bytes w rest = (w % 256) ∷ (w / 2 ^ 8 % 256) ∷ (w / 2 ^ 16 % 256) ∷ (w / 2 ^ 24 % 256) ∷ rest

-- The frame that `SendProximityFrame` and `SendGroupFrame` build.
unfoldable pub audio_frame : ℕ → ℕ → ℕ → Bytes → Bytes
unfolding word_bytes
audio_frame channel sid seq opus =
    1 ∷ channel ∷ (seq % 256) ∷ (seq / 2 ^ 8 % 256) ∷ word_bytes sid opus

-- `SendKeepalive`
unfoldable pub keepalive_frame : ℕ → Bytes
unfolding word_bytes
keepalive_frame sid = 1 ∷ 5 ∷ 0 ∷ 0 ∷ word_bytes sid []

-- The arguments of `PacketCallback`.
pub record Packet : Type 0 where
  pub channel : ℕ
  pub src : ℕ
  pub seq : ℕ
  pub gain : ℕ
  pub pan : ℤ
  pub payload : Bytes

-- `(int8_t)b`
unfoldable pub signed_byte : ℕ → ℤ
signed_byte b = if ltb b 128 then pos b else negsuc (255 - b)

-- `HandleBinaryWsMessage`: the call of the callback, or none. The parts of a number are disjoint
-- bits, so `|` is a sum. `opus_len` is a `uint16_t`.
unfoldable pub decode_packet : Bytes → Option Packet
unfolding signed_byte
decode_packet (ver ∷ ch ∷ s0 ∷ s1 ∷ w0 ∷ w1 ∷ w2 ∷ w3 ∷ g ∷ p ∷ opus) =
    if not (ver == 1)
    then none
    else some (record {
      channel = ch;
      src = w0 + w1 * 2 ^ 8 + w2 * 2 ^ 16 + w3 * 2 ^ 24;
      seq = s0 + s1 * 2 ^ 8;
      gain = g;
      pan = signed_byte p;
      payload = take (length opus % 2 ^ 16) opus;
    })
decode_packet _ = none

-- Whether `SendProximityFrame` or `SendGroupFrame` sends a payload of this length.
unfoldable pub is_sendable : ℕ → Bytes → Bool
is_sendable sid opus = not (sid == 0 || length opus == 0 || ltb 1024 (length opus))
