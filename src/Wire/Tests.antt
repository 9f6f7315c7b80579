-- ===== src/Wire/Tests.antt =====
-- A frame of session 0x01020304.
use l2voice_chat.Base.{[], ◌∷◌, some, ◌≡◌, refl, arith}
use l2voice_chat.Base.Int.{negsuc}
use l2voice_chat.Wire.{audio_frame, decode_packet, signed_byte}
use l2voice_chat.Wire.RoundTrip.{stamp, decode_packet-stamp}

frame_bytes : audio_frame 2 0x01020304 0x0506 (9 ∷ []) ≡ 1 ∷ 2 ∷ 6 ∷ 5 ∷ 4 ∷ 3 ∷ 2 ∷ 1 ∷ 9 ∷ []
unfolding audio_frame
frame_bytes = refl

decode_packet-stamp_example :
    decode_packet (stamp 200 255 (audio_frame 2 0x01020304 0x0506 (9 ∷ [])))
    ≡ some (record {
      channel = 2;
      src = 0x01020304;
      seq = 0x0506;
      gain = 200;
      pan = signed_byte 255;
      payload = 9 ∷ [];
    })
decode_packet-stamp_example =
    decode_packet-stamp 2 0x01020304 0x0506 200 255 (9 ∷ []) (omega arith) (omega arith)
      (omega arith)

pan_left : signed_byte 255 ≡ negsuc 0
unfolding signed_byte
pan_left = refl
