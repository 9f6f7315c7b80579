-- ===== src/Overlay/Draw/Proximity/Mute.antt =====
-- The button for all the speakers nearby.
use l2voice_chat.Base.{
  ℕ, Bool, true, false, not, ◌||◌, ◌⊎◌, List, [], ◌∷◌, All, none, some, ◌==◌, if◌then◌else◌,
  if_intro, Bool-cases, Option-cases, ==_iff, ==_refl, ltb, ◌-◌, ◌≡◌, inl, inr, refl, sym, ap, ◌∙◌,
  subst,
}
use mathlib.Core.List.{Memᴰ}
use l2voice_chat.Base.Int.{sub_ℕ}
use l2voice_chat.Base.Dict.{Dict, nat_eq, lookup, insert, lookup-insert, lookup-insert_self}
use l2voice_chat.Audio.Float.{FloatOps}
use l2voice_chat.Audio.Mixer.{Source}
use l2voice_chat.Audio.Playback.{
  Playback, SpeakerInfo, set_source_muted, is_source_muted, speaker_infos, get_speaker_infos,
  is_stale,
}
use l2voice_chat.Overlay.Draw.Proximity.{any_unmuted, mute_each, toggle_all}

module _ (ops : FloatOps) where
  -- A source is there, and muted or not as `b` says.
  abbrev pub HasMute : Bool → ℕ → Playback ops → Type 0
  HasMute b id p = (src : Source ops) × (lookup id p.sources ≡ some src) × (src.muted ≡ b)

  abbrev pub IsHere : ℕ → Playback ops → Type 0
  IsHere id p = (src : Source ops) × (lookup id p.sources ≡ some src)

  pub set_source_muted_found :
      (b : Bool) (id : ℕ) (p : Playback ops) (src : Source ops)
      → lookup id p.sources ≡ some src
      → set_source_muted ops id b p
        ≡ record p { sources = insert id (record src { muted = b }) p.sources }
  unfolding set_source_muted
  set_source_muted_found b id p src e =
      ap
        (λ o. elim o as (λ _. Playback ops) [
          | none ↦ p
          | some x ↦ record p { sources = insert id (record x { muted = b }) p.sources }
        ])
        e

  set_source_muted_missing :
      (b : Bool) (id : ℕ) (p : Playback ops)
      → lookup id p.sources ≡ none
      → set_source_muted ops id b p ≡ p
  unfolding set_source_muted
  set_source_muted_missing b id p e =
      ap
        (λ o. elim o as (λ _. Playback ops) [
          | none ↦ p
          | some x ↦ record p { sources = insert id (record x { muted = b }) p.sources }
        ])
        e

  set_source_muted-HasMute :
      (b : Bool) (id : ℕ) (p : Playback ops)
      → IsHere id p
      → HasMute b id (set_source_muted ops id b p)
  set_source_muted-HasMute b id p (src, e) =
      subst (HasMute b id) (sym (set_source_muted_found b id p src e))
        (record src { muted = b }, lookup-insert_self id (record src { muted = b }) p.sources, refl)

  -- Another source stays as it is.
  lookup-set_source_muted :
      (b : Bool) (id j : ℕ) (p : Playback ops)
      → (id == j) ≡ false
      → lookup j (set_source_muted ops id b p).sources ≡ lookup j p.sources
  lookup-set_source_muted b id j p other =
      elim (Option-cases (lookup id p.sources))
        as (λ _. lookup j (set_source_muted ops id b p).sources ≡ lookup j p.sources) [
          | inl e ↦
              ap (λ (q : Playback ops). lookup j q.sources) (set_source_muted_missing b id p e)
          | inr (src, e) ↦
              ap (λ (q : Playback ops). lookup j q.sources) (set_source_muted_found b id p src e)
              ∙ (lookup-insert id j (record src { muted = b }) p.sources
                  ∙ ap (λ c. if c then some (record src { muted = b }) else lookup j p.sources)
                      other)
        ]

  set_source_muted_keeps :
      (b : Bool) (id j : ℕ) (p : Playback ops)
      → HasMute b j p
      → HasMute b j (set_source_muted ops id b p)
  set_source_muted_keeps b id j p (src, e, m) =
      elim (Bool-cases (id == j)) as (λ _. HasMute b j (set_source_muted ops id b p)) [
        | inl same ↦
            subst (λ k. HasMute b j (set_source_muted ops k b p)) (sym ((==_iff id j).0 same))
              (set_source_muted-HasMute b j p (src, e))
        | inr other ↦ (src, lookup-set_source_muted b id j p other ∙ e, m)
      ]

  set_source_muted_stays :
      (b : Bool) (id j : ℕ) (p : Playback ops) → IsHere j p → IsHere j (set_source_muted ops id b p)
  set_source_muted_stays b id j p (src, e) =
      elim (Bool-cases (id == j)) as (λ _. IsHere j (set_source_muted ops id b p)) [
        | inl same ↦
            let (x, f, m) =
              subst (λ k. HasMute b j (set_source_muted ops k b p)) (sym ((==_iff id j).0 same))
                (set_source_muted-HasMute b j p (src, e)) in
            (x, f)
        | inr other ↦ (src, lookup-set_source_muted b id j p other ∙ e)
      ]

  abbrev AllHere : List (SpeakerInfo ops) → Playback ops → Type 0
  AllHere infos p = All (λ (s : SpeakerInfo ops). IsHere s.src_id p) infos

  AllHere-set_source_muted :
      (b : Bool) (id : ℕ) (infos : List (SpeakerInfo ops)) (p : Playback ops)
      → AllHere infos p
      → AllHere infos (set_source_muted ops id b p)
  AllHere-set_source_muted b id [] p h = tt
  AllHere-set_source_muted b id (s ∷ ss) p (h, hs) =
      (set_source_muted_stays b id s.src_id p h, AllHere-set_source_muted b id ss p hs)

  mute_each_keeps :
      (b : Bool) (j : ℕ) (infos : List (SpeakerInfo ops)) (p : Playback ops)
      → HasMute b j p
      → HasMute b j (mute_each ops b infos p)
  unfolding mute_each
  mute_each_keeps b j [] p h = h
  mute_each_keeps b j (s ∷ ss) p h =
      mute_each_keeps b j ss (set_source_muted ops s.src_id b p)
        (set_source_muted_keeps b s.src_id j p h)

  mute_each-HasMute :
      (b : Bool) (infos : List (SpeakerInfo ops)) (p : Playback ops)
      → AllHere infos p
      → All (λ (s : SpeakerInfo ops). HasMute b s.src_id (mute_each ops b infos p)) infos
  unfolding mute_each
  mute_each-HasMute b [] p h = tt
  mute_each-HasMute b (s ∷ ss) p (h, hs) = (
    mute_each_keeps b s.src_id ss (set_source_muted ops s.src_id b p)
        (set_source_muted-HasMute b s.src_id p h),
    mute_each-HasMute b ss (set_source_muted ops s.src_id b p)
        (AllHere-set_source_muted b s.src_id ss p hs),
  )

  abbrev KeptIn : Dict ℕ (Source ops) → List (SpeakerInfo ops) → Type 0
  KeptIn kept rows =
      All (λ (s : SpeakerInfo ops). (src : Source ops) × (lookup s.src_id kept ≡ some src)) rows

  KeptIn-cons :
      (id : ℕ) (src : Source ops) (kept : Dict ℕ (Source ops)) (rows : List (SpeakerInfo ops))
      → KeptIn kept rows
      → KeptIn ((id, src) ∷ kept) rows
  unfolding lookup
  KeptIn-cons id src kept [] h = tt
  KeptIn-cons id src kept (s ∷ ss) ((x, e), hs) = (
    if_intro (λ o. (y : Source ops) × (o ≡ some y)) (id == s.src_id) (src, refl) (x, e),
    KeptIn-cons id src kept ss hs,
  )

  lookup_first :
      (id : ℕ) (src : Source ops) (kept : Dict ℕ (Source ops))
      → lookup id ((id, src) ∷ kept) ≡ some src
  unfolding lookup
  lookup_first id src kept = ap (λ b. if b then some src else lookup id kept) (==_refl id)

  -- The rows that are shown are of sources that are kept.
  speaker_infos-KeptIn :
      (now room : ℕ) (sources : Dict ℕ (Source ops))
      → KeptIn (speaker_infos ops now room sources).1 (speaker_infos ops now room sources).0
  unfolding speaker_infos
  speaker_infos-KeptIn now room [] = tt
  speaker_infos-KeptIn now room ((id, src) ∷ rest) =
      let stale = is_stale ops now src in
      let left = if stale then room else room - 1 in
      let found = speaker_infos ops now left rest in
      let row : SpeakerInfo ops = record {
        src_id = id;
        gain = src.gain;
        volume = src.volume;
        muted = src.muted;
        ms_since_mix = sub_ℕ now src.last_mix;
      } in
      let held = speaker_infos-KeptIn now left rest in
      let more = KeptIn-cons id src found.1 found.0 held in
      if_intro (λ (x : List (SpeakerInfo ops) × Dict ℕ (Source ops)). KeptIn x.1 x.0) stale
        {x = found} {y = (if ltb 0 room then row ∷ found.0 else found.0, (id, src) ∷ found.1)} held
        (if_intro (KeptIn ((id, src) ∷ found.1)) (ltb 0 room)
          ((src, lookup_first id src found.1), more) more)

  HasMute-is_source_muted :
      (b : Bool) (id : ℕ) (p : Playback ops) → HasMute b id p → is_source_muted ops id p ≡ b
  unfolding is_source_muted
  HasMute-is_source_muted b id p (src, e, m) =
      ap (λ o. elim o as (λ _. Bool) [ none ↦ false | some x ↦ x.muted ]) e ∙ m

  each_muted :
      (b : Bool) (infos : List (SpeakerInfo ops)) (p : Playback ops)
      → All (λ (s : SpeakerInfo ops). HasMute b s.src_id p) infos
      → All (λ (s : SpeakerInfo ops). is_source_muted ops s.src_id p ≡ b) infos
  each_muted b [] p h = tt
  each_muted b (s ∷ ss) p (h, hs) = (HasMute-is_source_muted b s.src_id p h, each_muted b ss p hs)

  -- A speaker of the list is shown as not muted.
  abbrev pub HasUnmuted : List (SpeakerInfo ops) → Type 0
  HasUnmuted infos = (s : SpeakerInfo ops) × Memᴰ s infos × (s.muted ≡ false)

  -- Each speaker of the list is muted in the playback, or each is not.
  abbrev pub AllMuted : Bool → List (SpeakerInfo ops) → Playback ops → Type 0
  AllMuted b infos p = All (λ (s : SpeakerInfo ops). is_source_muted ops s.src_id p ≡ b) infos

  any_unmuted-cases :
      (infos : List (SpeakerInfo ops))
      → (HasUnmuted infos × (any_unmuted ops infos ≡ true))
        ⊎ (All (λ (s : SpeakerInfo ops). s.muted ≡ true) infos × (any_unmuted ops infos ≡ false))
  unfolding any_unmuted
  any_unmuted-cases [] = inr (tt, refl)
  any_unmuted-cases (s ∷ ss) = elim (Bool-cases s.muted) [
    | inl muted ↦ elim (any_unmuted-cases ss) [
      | inl ((x, here, e), any) ↦
          inl ((x, Memᴰ.tail here, e), ap (λ b. not b || any_unmuted ops ss) muted ∙ any)
      | inr (all, none_left) ↦
          inr ((muted, all), ap (λ b. not b || any_unmuted ops ss) muted ∙ none_left)
    ]
    | inr heard ↦ inl ((s, Memᴰ.head refl, heard), ap (λ b. not b || any_unmuted ops ss) heard)
  ]

  -- A press of the button for all leaves every speaker of the list muted if one of them was shown as
  -- not muted, and none of them muted if all were shown as muted; and one of the two is the case.
  pub toggle_all-AllMuted :
      (now : ℕ) (p : Playback ops)
      → let (infos, q) = get_speaker_infos ops now 64 p in
        let after = toggle_all ops infos q in
        (HasUnmuted infos × AllMuted true infos after)
        ⊎ (All (λ (s : SpeakerInfo ops). s.muted ≡ true) infos × AllMuted false infos after)
  unfolding get_speaker_infos toggle_all
  toggle_all-AllMuted now p =
      let (infos, kept) = speaker_infos ops now 64 p.sources in
      let q : Playback ops = record p { sources = kept } in
      let b = any_unmuted ops infos in
      let all : AllMuted b infos (mute_each ops b infos q) =
        each_muted b infos (mute_each ops b infos q)
          (mute_each-HasMute b infos q (speaker_infos-KeptIn now 64 p.sources)) in
      elim (any_unmuted-cases infos) [
        | inl (has, any) ↦
            inl (has, subst (λ c. AllMuted c infos (mute_each ops b infos q)) any all)
        | inr (muted, any) ↦
            inr (muted, subst (λ c. AllMuted c infos (mute_each ops b infos q)) any all)
      ]
