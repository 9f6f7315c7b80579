-- ===== src/Overlay/Draw/MiniList/Click.antt =====
-- A click on a name in the list of speakers, and the mute button of the panel.
use l2voice_chat.Base.{
  refl, ℕ, Bool, false, not, if◌then◌else◌, none, some, ◌≡◌, sym, ap, ◌∙◌, subst,
}
use l2voice_chat.Base.Int.{pos}
use l2voice_chat.Base.Dict.{nat_eq, lookup, insert, lookup-insert_self}
use l2voice_chat.Audio.Float.{FloatOps}
use l2voice_chat.Audio.Mixer.{Source}
use l2voice_chat.Audio.Playback.{
  source_of, Playback, SpeakerInfo, set_source_muted, set_source_volume, is_source_muted,
  get_source_volume, clamp_volume,
}
use l2voice_chat.Voice.Lifecycle.{Client}
use l2voice_chat.Overlay.Draw.Proximity.Mute.{set_source_muted_found}
use l2voice_chat.Overlay.Draw.MiniList.{toggle_speaker}

module _ (ops : FloatOps) where
  open ops use {F, of_int, less}

  -- A source keeps the volume that was set when it is muted or not.
  volume-set_source_muted :
      (now id : ℕ) (x : F) (b : Bool) (p : Playback ops)
      → let q = set_source_muted ops id b (set_source_volume ops now id x p) in
        (is_source_muted ops id q ≡ b) × (get_source_volume ops id q ≡ clamp_volume ops x)
  unfolding set_source_volume is_source_muted get_source_volume
  volume-set_source_muted now id x b p =
      let set : Source ops = record (source_of ops now id p) { volume = clamp_volume ops x } in
      let moved = record set { muted = b } in
      let p' : Playback ops = record p { sources = insert id set p.sources } in
      let found =
        ap (λ (q : Playback ops). lookup id q.sources)
          (set_source_muted_found ops b id p' set (lookup-insert_self id set p.sources))
        ∙ lookup-insert_self id moved p'.sources in
      (
        ap (λ o. elim o as (λ _. Bool) [ none ↦ false | some y ↦ y.muted ]) found,
        ap (λ o. elim o as (λ _. F) [ none ↦ of_int (pos 1) | some y ↦ y.volume ]) found,
      )

  clamp_volume_zero :
      less (of_int (pos 0)) (of_int (pos 0)) ≡ false
      → less (of_int (pos 2)) (of_int (pos 0)) ≡ false
      → clamp_volume ops (of_int (pos 0)) ≡ of_int (pos 0)
  unfolding clamp_volume
  clamp_volume_zero z tz = rw (z, tz) refl

  -- For a float order in which 0 < 0 and 2 < 0 fail: a speaker who is muted by a click in the list
  -- of the minimized overlay, and then unmuted as the panel does it, has no mute any more, but the
  -- volume is still 0.
  pub toggle_speaker-set_source_muted :
      less (of_int (pos 0)) (of_int (pos 0)) ≡ false
      → less (of_int (pos 2)) (of_int (pos 0)) ≡ false
      → (now : ℕ) (s : SpeakerInfo ops) (c : Client ops) → s.muted ≡ false
      → let p = (toggle_speaker ops now s c).listener.playback in
        let q = set_source_muted ops s.src_id false p in
        (is_source_muted ops s.src_id q ≡ false)
        × (get_source_volume ops s.src_id q ≡ of_int (pos 0))
  unfolding toggle_speaker
  toggle_speaker-set_source_muted z tz now s c heard =
      let mute = set_source_muted ops s.src_id (not s.muted) c.listener.playback in
      let silent =
        subst
          (λ b.
            let q =
              set_source_muted ops s.src_id false
                (set_source_volume ops now s.src_id (of_int (pos (if b then 1 else 0))) mute) in
            (is_source_muted ops s.src_id q ≡ false)
            × (get_source_volume ops s.src_id q ≡ clamp_volume ops (of_int (pos 0))))
          (sym heard) (volume-set_source_muted now s.src_id (of_int (pos 0)) false mute) in
      (silent.0, silent.1 ∙ clamp_volume_zero z tz)
