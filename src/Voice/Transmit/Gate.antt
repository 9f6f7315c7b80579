-- ===== src/Voice/Transmit/Gate.antt =====
-- When the microphone is shut: without the focus, or without a key and without speech.
use l2voice_chat.Base.{
  ℕ, true, false, ◌∷◌, none, ◌≡◌, refl, arith, Bytes, take, Option-cases, inl, inr,
}
use l2voice_chat.Base.Dict.{text_eq, lookup, lookup-erase_self}
use l2voice_chat.Network.State.{Net}
use l2voice_chat.Voice.Speaking.{Speakers, release_speaker}
use l2voice_chat.Voice.State.{Config, Voice}
use l2voice_chat.Voice.Transmit.{
  Frame, held, selected_channel, choose_channel, is_transmitting, my_name, release_self,
  route_frame, on_capture_frame,
}

-- No key that is set is down.
pub record NoKey {F : Type 0} (cfg : Config F) (f : Frame) : Type 0 where
  pub party : held f cfg.ptt_party ≡ false
  pub clan : held f cfg.ptt_clan ≡ false
  pub ally : held f cfg.ptt_ally ≡ false
  pub proximity : held f cfg.ptt_proximity ≡ false

-- The reasons for which nothing may leave the microphone.
pub data Gated {F : Type 0} (cfg : Config F) (f : Frame) : Type 0 where
  unfocused : cfg.require_focus ≡ true → f.foreground ≡ false → Gated cfg f
  idle : NoKey cfg f → cfg.always_on ≡ false → Gated cfg f
  quiet : NoKey cfg f → f.speaking ≡ false → Gated cfg f

gated-silent :
    {F : Type 0} (cfg : Config F) (f : Frame) (sel : ℕ)
    → Gated cfg f
    → is_transmitting cfg f (choose_channel cfg f sel) ≡ false
unfolding is_transmitting choose_channel
gated-silent cfg f sel (unfocused r g) = rw (r, g) refl
gated-silent cfg f sel (idle k a) = rw (k.party, k.clan, k.ally, k.proximity, a) (ground arith)
gated-silent cfg f sel (quiet k q) = rw (k.party, k.clan, k.ally, k.proximity, q) (ground arith)

-- A player with a name in the settings is named without a query.
pub my_name_set :
    {F : Type 0} (cfg : Config F) (n : Net) (c : ℕ) (name : Bytes)
    → cfg.char_name ≡ c ∷ name
    → my_name cfg n ≡ (take 63 (c ∷ name), n)
unfolding my_name
my_name_set cfg n c name e = rw (e, my_name) refl

lookup-release_speaker :
    (ini name : Bytes) (s : Speakers) → lookup name (release_speaker ini name s).last_time ≡ none
unfolding release_speaker
lookup-release_speaker ini name s = elim (Option-cases (lookup name s.last_time)) [
  | inl e ↦ rw (e, release_speaker) e
  | inr (t, e) ↦ rw (e, release_speaker) (lookup-erase_self name s.last_time)
]

-- The module runs and has a full frame: then the frame is routed.
pub on_capture_frame-route :
    {F : Type 0} (f : Frame) (v : Voice F)
    → v.running ≡ true
    → f.samples ≡ 960
    → on_capture_frame f v
      ≡ route_frame f
          (choose_channel v.cfg f
            (selected_channel v.ch_prefs.active_tx_channel v.net.state.clan_mode))
          v
unfolding on_capture_frame
on_capture_frame-route f v r e = rw (r, e) refl

-- For a player with a name in the settings, a full frame while the module runs: without the focus
-- that the settings ask for, or without a key while always-on is off or the detector is silent,
-- nothing is sent, no sequence number is used, and the player is no longer listed as a speaker.
pub on_capture_frame_gated :
    {F : Type 0} (f : Frame) (v : Voice F) (c : ℕ) (name : Bytes)
    → v.running ≡ true
    → f.samples ≡ 960
    → v.cfg.char_name ≡ c ∷ name
    → Gated v.cfg f
    → ((on_capture_frame f v).net ≡ v.net)
      × ((on_capture_frame f v).tx_seq ≡ v.tx_seq)
      × (lookup (take 63 (c ∷ name)) (on_capture_frame f v).speakers.last_time ≡ none)
unfolding route_frame release_self
on_capture_frame_gated f v c name r e n g =
    rw
      (
        on_capture_frame-route f v r e,
        route_frame,
        my_name_set v.cfg v.net c name n,
        gated-silent v.cfg f (selected_channel v.ch_prefs.active_tx_channel v.net.state.clan_mode)
            g,
      )
      (refl, refl, lookup-release_speaker v.ini_path (take 63 (c ∷ name)) v.speakers)
