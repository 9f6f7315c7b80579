-- ===== src/Audio/Playback/Mixing.antt =====
-- What the playback callback writes, and what it takes from each source.
use l2voice_chat.Base.{
  ℕ, zero, suc, ◌-◌, min, true, List, [], ◌∷◌, ◌≡◌, refl, ap, ap₂, ◌∙◌, inl, inr, arith, length,
  ltb, ◌==◌, if◌then◌else◌, Bool-cases, All, map, replicate, length-replicate,
}
use l2voice_chat.Base.Int.{ℤ, pos, ◌+ℤ◌, ◌≤ℤ◌}
use l2voice_chat.Base.Dict.{Dict}
use l2voice_chat.Audio.Ring.{available, pop_count, pop}
use l2voice_chat.Audio.Ring.Fifo.{IsValid, available-pop}
use l2voice_chat.Audio.Float.{FloatOps}
use l2voice_chat.Audio.Mixer.{
  Stereo, int16_max, int16_min, saturate, Source, mix_frame, mix, mix_source, mix_sources,
}
use l2voice_chat.Audio.Playback.{Playback, data_callback}

abbrev pub Is16Bit : ℤ → Type 0
Is16Bit s = (int16_min ≤ℤ s) × (s ≤ℤ int16_max)

abbrev pub IsPlayable : Stereo → Type 0
IsPlayable o = Is16Bit o.0 × Is16Bit o.1

saturate-Is16Bit : (l : ℤ) → Is16Bit (saturate l)
unfolding saturate
saturate-Is16Bit l = ground arith

-- What every stage of the mixing keeps of the output.
pub record IsOutput (n : ℕ) (out : List Stereo) : Type 0 where
  pub filled : length out ≡ n
  pub playable : All IsPlayable out

silence-IsPlayable : (n : ℕ) → All IsPlayable (replicate n (pos 0, pos 0))
silence-IsPlayable zero = tt
silence-IsPlayable (suc n) = (omega arith, silence-IsPlayable n)

module _ (ops : FloatOps) where
  open ops use {F}

  mix_frame-IsPlayable :
      (pans : F × F) (gain : F) (o : Stereo) (s : ℤ) → IsPlayable (mix_frame ops pans gain o s)
  unfolding mix_frame
  mix_frame-IsPlayable pans gain (l, r) s = (
    saturate-Is16Bit (l +ℤ ops.to_int (ops.mul (ops.mul (ops.of_int s) pans.0) gain)),
    saturate-Is16Bit (r +ℤ ops.to_int (ops.mul (ops.mul (ops.of_int s) pans.1) gain)),
  )

  mix-IsOutput :
      (pans : F × F) (gain : F) (n : ℕ) (out : List Stereo) (ss : List ℤ)
      → IsOutput n out
      → IsOutput n (mix ops pans gain out ss)
  unfolding mix
  mix-IsOutput pans gain n [] [] h = h
  mix-IsOutput pans gain n (o ∷ out) [] h = h
  mix-IsOutput pans gain n [] (s ∷ ss) h = h
  mix-IsOutput pans gain n (o ∷ out) (s ∷ ss) h =
      let ih =
        mix-IsOutput pans gain (length out) out ss
          (record { filled = refl; playable = h.playable.1 }) in
      record {
        filled = ap suc ih.filled ∙ h.filled;
        playable = (mix_frame-IsPlayable pans gain o s, ih.playable);
      }

  mix_source-IsOutput :
      (now : ℕ) (master : F) (n : ℕ) (out : List Stereo) (src : Source ops)
      → IsOutput n out
      → IsOutput n (mix_source ops now master n out src).0
  unfolding mix_source
  mix_source-IsOutput now master n out src h =
      let got = (pop src.ring (if ltb 1024 n then 1024 else n)).0 in
      elim (Bool-cases (available src.ring == 0)) [
        | inl e ↦ rw e h
        | inr e ↦ rw e (elim (Bool-cases src.muted) [
          | inl m ↦ rw m h
          | inr m ↦ rw m (elim (Bool-cases (length got == 0)) [
            | inl g ↦ rw g h
            | inr g ↦ rw g (mix-IsOutput _ _ n out got h)
          ])
        ])
      ]

  mix_sources-IsOutput :
      (now : ℕ) (master : F) (n : ℕ) (out : List Stereo) (srcs : Dict ℕ (Source ops))
      → IsOutput n out
      → IsOutput n (mix_sources ops now master n out srcs).0
  unfolding mix_sources
  mix_sources-IsOutput now master n out [] h = h
  mix_sources-IsOutput now master n out ((id, src) ∷ rest) h =
      mix_sources-IsOutput now master n (mix_source ops now master n out src).0 rest
        (mix_source-IsOutput now master n out src h)

  -- Whatever the sources hold, the callback fills exactly the frames asked for, and every sample
  -- that it writes fits in 16 bits.
  pub data_callback-IsOutput :
      (now n : ℕ) (p : Playback ops) → IsOutput n (data_callback ops now n p).0
  unfolding data_callback
  data_callback-IsOutput now n p =
      mix_sources-IsOutput now p.master_gain n _ p.sources
        (record { filled = length-replicate n _; playable = silence-IsPlayable n })

  -- A muted source takes samples off its ring and adds nothing.
  mix_source_muted :
      (now : ℕ) (master : F) (n : ℕ) (out : List Stereo) (src : Source ops)
      → src.muted ≡ true
      → (mix_source ops now master n out src).0 ≡ out
  unfolding mix_source
  mix_source_muted now master n out src h = ground arith

  mix_sources_muted :
      (now : ℕ) (master : F) (n : ℕ) (out : List Stereo) (srcs : Dict ℕ (Source ops))
      → All (λ s. s.1.muted ≡ true) srcs
      → (mix_sources ops now master n out srcs).0 ≡ out
  unfolding mix_sources
  mix_sources_muted now master n out [] h = refl
  mix_sources_muted now master n out ((id, src) ∷ rest) h =
      mix_sources_muted now master n (mix_source ops now master n out src).0 rest h.1
      ∙ mix_source_muted now master n out src h.0

  -- While every source is muted, the callback writes silence.
  pub data_callback_silent :
      (now n : ℕ) (p : Playback ops)
      → All (λ s. s.1.muted ≡ true) p.sources
      → (data_callback ops now n p).0 ≡ replicate n (pos 0, pos 0)
  unfolding data_callback
  data_callback_silent now n p h = mix_sources_muted now p.master_gain n _ p.sources h

  -- How many samples wait in each source.
  abbrev pub waiting : Dict ℕ (Source ops) → List (ℕ × ℕ)
  waiting = map (λ s. (s.0, available s.1.ring))

  abbrev pub AllValid : Dict ℕ (Source ops) → Type 0
  AllValid = All (λ s. IsValid s.1.ring)

  -- The ring is popped, whatever is done with the samples.
  mix_source-ring :
      (now : ℕ) (master : F) (n : ℕ) (out : List Stereo) (src : Source ops)
      → (mix_source ops now master n out src).1.ring ≡ (
          if available src.ring == 0
          then src.ring
          else (pop src.ring (if ltb 1024 n then 1024 else n)).1)
  unfolding mix_source
  mix_source-ring now master n out src = elim (Bool-cases (available src.ring == 0)) [
    | inl e ↦ rw e
    | inr e ↦ rw e (elim (Bool-cases src.muted) [
      | inl m ↦ rw m
      | inr m ↦
          rw m (elim (Bool-cases (length (pop src.ring (if ltb 1024 n then 1024 else n)).0 == 0)) [
            | inl g ↦ rw g
            | inr g ↦ rw g
          ])
    ])
  ]

  mix_source_drains :
      (now : ℕ) (master : F) (n : ℕ) (out : List Stereo) (src : Source ops)
      → IsValid src.ring
      → available (mix_source ops now master n out src).1.ring ≡ available src.ring - min 1024 n
  unfolding pop_count
  mix_source_drains now master n out src v =
      rw (mix_source-ring now master n out src)
        (ground (arith, available-pop src.ring (if ltb 1024 n then 1024 else n) v))

  mix_sources_drains :
      (now : ℕ) (master : F) (n : ℕ) (out : List Stereo) (srcs : Dict ℕ (Source ops))
      → AllValid srcs
      → waiting (mix_sources ops now master n out srcs).1
        ≡ map (λ w. (w.0, w.1 - min 1024 n)) (waiting srcs)
  unfolding mix_sources
  mix_sources_drains now master n out [] v = refl
  mix_sources_drains now master n out ((id, src) ∷ rest) v =
      ap₂ (λ k t. (id, k) ∷ t) (mix_source_drains now master n out src v.0)
        (mix_sources_drains now master n (mix_source ops now master n out src).0 rest v.1)

  -- A call for `n` frames takes the same number of samples off every source, muted or not: `n`, but
  -- 1024 at most and no more than wait there. No source is added or removed.
  pub data_callback_drains :
      (now n : ℕ) (p : Playback ops)
      → AllValid p.sources
      → waiting (data_callback ops now n p).1.sources
        ≡ map (λ w. (w.0, w.1 - min 1024 n)) (waiting p.sources)
  unfolding data_callback
  data_callback_drains now n p v = mix_sources_drains now p.master_gain n _ p.sources v
