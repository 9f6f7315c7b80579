-- ===== src/Audio/Playback.antt =====
-- `AudioPlayback` of client/voice/audio_io.cpp: one source for each remote speaker, mixed into a
-- stereo stream by the miniaudio callback. Every method holds `sources_mu` while it works on the
-- sources, so each is one step. Times are milliseconds of the steady clock.
pub mod Mixing
mod Tests
use l2voice_chat.Base.{
  ℕ, zero, suc, ◌+◌, ◌-◌, ◌%◌, ◌^◌, Bool, true, false, not, ◌||◌, List, [], ◌∷◌, ◌++◌, none, some,
  length, ltb, ◌==◌, if◌then◌else◌, replicate, Bytes,
}
use l2voice_chat.Base.Int.{ℤ, pos, negsuc, sub_ℕ}
use l2voice_chat.Base.Dict.{Dict, nat_eq, lookup, insert, erase}
use l2voice_chat.Audio.Ring.{MonoRing, push}
use l2voice_chat.Audio.Device.{Answers, select_device}
use l2voice_chat.Audio.Float.{FloatOps}
use l2voice_chat.Audio.Mixer.{Stereo, half_sum, Source, mix_sources}

-- `kAecRefRingSamples = kFrameSamples * 10`
abbrev pub aec_ref_samples : ℕ
aec_ref_samples = 9600

-- `kIdleTimeoutMs`
abbrev pub idle_timeout_ms : ℕ
idle_timeout_ms = 100

-- A fresh ring, all zero.
abbrev pub empty_ring : MonoRing
empty_ring = record { buf = λ i. pos 0; wr = 0; rd = 0 }

module _ (ops : FloatOps) where
  open ops use {F, sub, less, abs, of_int, epsilon}

  pub record Playback : Type 0 where
    pub sources : Dict ℕ (Source ops)
    pub master_gain : F
    pub running : Bool
    pub aec_ref : ℕ → ℤ
    pub aec_wr : ℕ

  -- The loop that stores the mono downmix, from counter `c` on.
  unfoldable pub store_reference : (ℕ → ℤ) → ℕ → List Stereo → ℕ → ℤ
  unfolding half_sum
  store_reference f c [] = f
  store_reference f c ((l, r) ∷ out) =
      store_reference (λ j. if c % 2 ^ 32 % aec_ref_samples == j then half_sum l r else f j) (c + 1)
        out

  -- `DataCallback` for `frame_count` frames: what the speakers get, and the state after.
  unfoldable pub data_callback : ℕ → ℕ → Playback → List Stereo × Playback
  unfolding mix_sources store_reference
  data_callback now frame_count p =
      let silence = replicate frame_count (pos 0, pos 0) in
      let (out, sources) = mix_sources ops now p.master_gain frame_count silence p.sources in
      (
        out,
        record p {
          sources = sources;
          aec_ref = store_reference p.aec_ref p.aec_wr out;
          aec_wr = (p.aec_wr + frame_count) % 2 ^ 32;
        },
      )

  -- What `sources[src_id]` creates where the key is missing.
  abbrev pub fresh_source : ℕ → Source ops
  fresh_source now = record {
    ring = empty_ring;
    gain = of_int (pos 0);
    pan = of_int (pos 0);
    volume = of_int (pos 1);
    muted = false;
    last_mix = now;
  }

  -- `sources[src_id]`
  abbrev pub source_of : ℕ → ℕ → Playback → Source ops
  source_of now id p = elim (lookup id p.sources) [ some s ↦ s | none ↦ fresh_source now ]

  -- `Enqueue`; a null pointer is the empty list.
  unfoldable pub enqueue : ℕ → ℕ → List ℤ → F → F → Playback → Playback
  enqueue now id [] gain pan p = record p {
    sources = insert id (record (source_of now id p) { gain = gain; pan = pan }) p.sources;
  }
  enqueue now id (x ∷ pcm) gain pan p =
      let src = source_of now id p in
      record p {
        sources =
            insert id
              (record src {
                ring = push src.ring (x ∷ pcm);
                gain = gain;
                pan = pan;
                last_mix = now;
              })
              p.sources;
      }

  unfoldable pub drop_source : ℕ → Playback → Playback
  drop_source id p = record p { sources = erase id p.sources }

  -- `now - last_mix < 100`, also where the clock was read before the last mix.
  unfoldable pub active_speakers : ℕ → Dict ℕ (Source ops) → ℕ
  active_speakers now [] = 0
  active_speakers now ((id, src) ∷ rest) =
      (if ltb now (src.last_mix + idle_timeout_ms) then 1 else 0) + active_speakers now rest

  pub record SpeakerInfo : Type 0 where
    pub src_id : ℕ
    pub gain : F
    pub volume : F
    pub muted : Bool
    pub ms_since_mix : ℤ

  -- How long a silent source is kept.
  unfoldable pub source_timeout : Source ops → ℕ
  source_timeout src =
      if src.muted || less epsilon (abs (sub src.volume (of_int (pos 1)))) then 10000 else 3000

  -- `ms > timeout`
  unfoldable pub is_stale : ℕ → Source ops → Bool
  unfolding source_timeout
  is_stale now src = ltb (src.last_mix + source_timeout src) now

  -- The loop of `GetSpeakerInfos` with `room` rows left: the rows written and the sources kept.
  unfoldable pub speaker_infos :
      ℕ → ℕ → Dict ℕ (Source ops) → List SpeakerInfo × Dict ℕ (Source ops)
  unfolding is_stale
  speaker_infos now room [] = ([], [])
  speaker_infos now room ((id, src) ∷ rest) =
      let stale = is_stale now src in
      let (rows, kept) = speaker_infos now (if stale then room else room - 1) rest in
      if stale
      then (rows, kept)
      else let row : SpeakerInfo = record {
        src_id = id;
        gain = src.gain;
        volume = src.volume;
        muted = src.muted;
        ms_since_mix = sub_ℕ now src.last_mix;
      } in
        (if ltb 0 room then row ∷ rows else rows, (id, src) ∷ kept)

  unfoldable pub get_speaker_infos : ℕ → ℕ → Playback → List SpeakerInfo × Playback
  unfolding speaker_infos
  get_speaker_infos now cap p =
      let (rows, kept) = speaker_infos now cap p.sources in (rows, record p { sources = kept })

  -- `if (g < 0) g = 0; if (g > 2) g = 2;`
  unfoldable pub clamp_volume : F → F
  clamp_volume g =
      let low = if less g (of_int (pos 0)) then of_int (pos 0) else g in
      if less (of_int (pos 2)) low then of_int (pos 2) else low

  unfoldable pub set_master_volume : F → Playback → Playback
  unfolding clamp_volume
  set_master_volume g p = record p { master_gain = clamp_volume g }

  unfoldable pub set_source_muted : ℕ → Bool → Playback → Playback
  set_source_muted id muted p = elim (lookup id p.sources) [
    | none ↦ p
    | some src ↦ record p { sources = insert id (record src { muted = muted }) p.sources }
  ]

  unfoldable pub is_source_muted : ℕ → Playback → Bool
  is_source_muted id p = elim (lookup id p.sources) [ none ↦ false | some src ↦ src.muted ]

  unfoldable pub set_source_volume : ℕ → ℕ → F → Playback → Playback
  unfolding clamp_volume
  set_source_volume now id volume p = record p {
    sources = insert id (record (source_of now id p) { volume = clamp_volume volume }) p.sources;
  }

  unfoldable pub get_source_volume : ℕ → Playback → F
  get_source_volume id p = elim (lookup id p.sources) [
    | none ↦ of_int (pos 1)
    | some src ↦ src.volume
  ]

  -- `n` cells of the reference ring from counter `c` on.
  unfoldable pub reference_from : (ℕ → ℤ) → ℕ → ℕ → List ℤ
  reference_from f c zero = []
  reference_from f c (suc n) = f (c % 2 ^ 32 % aec_ref_samples) ∷ reference_from f (c + 1) n

  -- `PopPlaybackReference`: the latest samples, after zeros where there are too few.
  unfoldable pub pop_playback_reference : ℕ → Playback → List ℤ
  unfolding reference_from
  pop_playback_reference samples p =
      if ltb p.aec_wr samples
      then replicate (samples - p.aec_wr) (pos 0) ++ reference_from p.aec_ref 0 p.aec_wr
      else reference_from p.aec_ref (p.aec_wr - samples) samples

  unfoldable pub start : Playback → Answers → Bytes → Playback × Bool
  start p a name =
      if p.running
      then (p, true)
      else let chosen = select_device a name in
        if not (a.init_ok chosen)
        then (p, false)
        else if not (a.start_ok chosen)
        then (p, false)
        else (record p { running = true }, true)

  unfoldable pub stop : Playback → Playback
  stop p = if p.running then record p { running = false; sources = [] } else p
