-- ===== src/Overlay/Draw/Talk/Listen.antt =====
-- Local mute and volume, on rows or by name, only ask for names.
use l2voice_chat.Base.{ℕ, Bool, List, [], ◌∷◌, Option, none, some, Bytes, if_intro}
use l2voice_chat.Audio.Float.{FloatOps}
use l2voice_chat.Audio.Playback.{Playback, SpeakerInfo, get_speaker_infos}
use l2voice_chat.Network.State.{Net}
use l2voice_chat.Voice.Speaking.{stricmp_eq}
use l2voice_chat.Voice.State.{get_player_name, get_speaker_name}
use l2voice_chat.Voice.Incoming.{
  Listener, update_sources, update_active_speaker, set_player_muted, set_player_volume,
  is_player_muted, get_player_volume,
}
use l2voice_chat.Overlay.Draw.Talk.{Talk, get_speaker_name-Talk, get_player_name-Talk}

option-Talk :
    {quiet : Bool} {n : Net} {A B : Type 0} (o : Option A) (x : B × Net) (f : A → B × Net)
    → Talk quiet n x.1
    → ((a : A) → Talk quiet n (f a).1)
    → Talk quiet n (elim o as (λ _. B × Net) [ none ↦ x | some a ↦ f a ]).1
option-Talk none x f h k = h
option-Talk (some a) x f h k = k a

module _ (ops : FloatOps) {quiet : Bool} {n : Net} where
  open ops use {F}

  update_sources-Talk :
      (now : ℕ) (name : Bytes) (muted : Bool) (volume : F) (rows : List (SpeakerInfo ops))
      (p : Playback ops) {m : Net}
      → Talk quiet n m
      → Talk quiet n (update_sources ops now name muted volume rows p m).1
  unfolding update_sources
  update_sources-Talk now name muted volume [] p h = h
  update_sources-Talk now name muted volume (s ∷ ss) p {m} h =
      let asked = get_speaker_name-Talk s.src_id h in
      let skip = update_sources-Talk now name muted volume ss p asked in
      option-Talk (get_speaker_name s.src_id m).0 _ _ skip (λ found.
        if_intro (λ (x : Playback ops × Net). Talk quiet n x.1) (stricmp_eq found name)
          (update_sources-Talk now name muted volume ss _ asked) skip)

  update_active_speaker-Talk :
      (now id : ℕ) (l : Listener ops) {m : Net}
      → Talk quiet n m
      → Talk quiet n (update_active_speaker ops now id l m).1
  unfolding update_active_speaker
  update_active_speaker-Talk now id l {m} h =
      let asked = get_player_name-Talk id h in
      elim (get_player_name id m).0
        as (λ known.
          Talk quiet n
            (elim known as (λ _. Listener ops × Net) [
              | none ↦ (l, (get_player_name id m).1)
              | some [] ↦ (l, (get_player_name id m).1)
              | some (c ∷ name) ↦
                  let (rows, p) = get_speaker_infos ops now 64 l.playback in
                  let (p', m') =
                    update_sources ops now (c ∷ name) (is_player_muted ops id l)
                      (get_player_volume ops id l) rows p (get_player_name id m).1 in
                  (record l { playback = p' }, m')
            ]).1) [
              | none ↦ asked
              | some [] ↦ asked
              | some (c ∷ name) ↦
                  update_sources-Talk now (c ∷ name) (is_player_muted ops id l)
                    (get_player_volume ops id l) (get_speaker_infos ops now 64 l.playback).0
                    (get_speaker_infos ops now 64 l.playback).1 asked
            ]

  pub set_player_muted-Talk :
      (now id : ℕ) (b : Bool) (l : Listener ops) {m : Net}
      → Talk quiet n m
      → Talk quiet n (set_player_muted ops now id b l m).1
  unfolding set_player_muted
  set_player_muted-Talk now id b l h = update_active_speaker-Talk now id _ h

  pub set_player_volume-Talk :
      (now id : ℕ) (x : F) (l : Listener ops) {m : Net}
      → Talk quiet n m
      → Talk quiet n (set_player_volume ops now id x l m).1
  unfolding set_player_volume
  set_player_volume-Talk now id x l h = update_active_speaker-Talk now id _ h
