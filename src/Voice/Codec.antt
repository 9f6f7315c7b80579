-- ===== src/Voice/Codec.antt =====
-- The wrappers of libopus, client/voice/opus_codec.cpp. A codec that does not exist yet is `none`;
-- libopus is a parameter.
use l2voice_chat.Base.{ℕ, Bool, true, false, List, [], Option, none, some, Bytes}
use l2voice_chat.Base.Int.{ℤ}

-- `opus_encoder_create` and `opus_decoder_create`, which give nothing where they fail;
-- `opus_encode` for a frame and the size of the buffer, and `opus_decode` for a payload, or for a
-- lost one, and the room: nothing where they fail. Both leave the codec in a new state.
pub record Opus : Type 1 where
  pub Encoder : Type 0
  pub Decoder : Type 0
  pub encoder_create : Option Encoder
  pub decoder_create : Option Decoder
  pub encode : Encoder → List ℤ → ℕ → Option Bytes × Encoder
  pub decode : Decoder → Option Bytes → ℕ → Option (List ℤ) × Decoder

module _ (opus : Opus) where
  open opus use {Encoder, Decoder, encoder_create, decoder_create, encode, decode}

  -- `Init` of the encoder: the state and the result.
  unfoldable pub encoder_init : Option Encoder → Option Encoder × Bool
  encoder_init (some e) = (some e, true)
  encoder_init none = elim encoder_create [ none ↦ (none, false) | some e ↦ (some e, true) ]

  unfoldable pub decoder_init : Option Decoder → Option Decoder × Bool
  decoder_init (some d) = (some d, true)
  decoder_init none = elim decoder_create [ none ↦ (none, false) | some d ↦ (some d, true) ]

  -- A failure is 0 bytes, the empty list.
  abbrev pub or_empty : {A : Type 0} → Option (List A) → List A
  or_empty none = []
  or_empty (some xs) = xs

  unfoldable pub encode_frame : List ℤ → ℕ → Option Encoder → Bytes × Option Encoder
  encode_frame pcm size none = ([], none)
  encode_frame pcm size (some e) = let (out, e') = encode e pcm size in (or_empty out, some e')

  -- A null payload asks for the concealment of a lost frame.
  unfoldable pub decode_frame : Option Bytes → ℕ → Option Decoder → List ℤ × Option Decoder
  decode_frame payload room none = ([], none)
  decode_frame payload room (some d) =
      let (pcm, d') = decode d payload room in (or_empty pcm, some d')
