-- ===== src/Wire/RoundTrip.antt =====
-- What one client sends, the other reads, with what the service stamps in between.
use l2voice_chat.Base.{
  ℕ, ◌%◌, ◌^◌, ◌≤◌, ◌<◌, [], ◌∷◌, ◌++◌, some, length, take, drop, Bytes, ◌≡◌, refl, ap, arith,
}
use l2voice_chat.Wire.{audio_frame, signed_byte, decode_packet}

-- The egress packet of docs/protocol.md: the gain and the pan stand behind the header.
abbrev pub stamp : ℕ → ℕ → Bytes → Bytes
stamp gain pan frame = take 8 frame ++ (gain ∷ pan ∷ drop 8 frame)

take_whole : (xs : Bytes) → take (length xs) xs ≡ xs
take_whole [] = refl
take_whole (x ∷ xs) = ground (arith, take_whole xs)

-- A frame built for a session, a sequence number and a payload of at most 1024 bytes, with the
-- service's gain and pan put behind its header, is read back with the same channel, session,
-- sequence number and payload, that gain, and that pan as a signed byte.
pub decode_packet-stamp :
    (channel sid seq gain pan : ℕ) (opus : Bytes)
    → sid < 2 ^ 32
    → seq < 2 ^ 16
    → length opus ≤ 1024
    → decode_packet (stamp gain pan (audio_frame channel sid seq opus))
      ≡ some (record {
        channel = channel;
        src = sid;
        seq = seq;
        gain = gain;
        pan = signed_byte pan;
        payload = opus;
      })
unfolding decode_packet audio_frame
decode_packet-stamp channel sid seq gain pan opus h k l =
    let whole : length opus % 2 ^ 16 ≡ length opus = omega arith in
    ground (arith, take_whole opus, ap (λ n. take n opus) whole)
