-- ===== src/Voice/Speaking/Query.antt =====
-- What the game learns: the answer to its query, and the name under which the file lists a speaker.
use l2voice_chat.Base.{
  ℕ, zero, suc, ◌+◌, ◌<◌, true, ◌&&◌, [], ◌∷◌, none, some, ◌≡◌, refl, ap, ◌∙◌, sym, arith, Bytes,
  take, keep, map, Option-cases, Bool-cases, inl, inr, ◌≢◌, bytes_eq_iff, bytes_eq,
}
use l2voice_chat.Base.Int.{ℤ, pos, negsuc}
use l2voice_chat.Base.Dict.{Dict, text_eq, lookup, insert, lookup-insert_self, beq_refl}
use l2voice_chat.Voice.Speaking.{
  is_alnum, sanitize_name, Speakers, is_active, channel_of, stricmp_eq, lower, search_speakers,
  speaking_channel, write_voice_speak_ini, note_speaker, speak_path,
}
use l2voice_chat.Voice.Speaking.Window.{
  Distinct, distinct_nil, distinct_cons, write_voice_speak_ini_lem, insert-Distinct, if_active,
  kept_channel,
}

-- The name in the file is the first letters and digits of the speaker's name, as many as fit.
pub sanitize_name_lem : (room : ℕ) (s : Bytes) → sanitize_name room s ≡ take room (keep is_alnum s)
unfolding sanitize_name
sanitize_name_lem zero [] = refl
sanitize_name_lem (suc room) [] = refl
sanitize_name_lem zero (c ∷ s) = ground arith
sanitize_name_lem (suc room) (c ∷ s) =
    ground (arith, sanitize_name_lem room s, sanitize_name_lem (suc room) s)

-- An answer to the query: nobody of the name speaks, or somebody does, on that channel.
pub data Answer (now : ℕ) (name : Bytes) (s : Speakers) : ℤ → Type 0 where
  silent : Answer now name s (negsuc 0)
  speaking :
      (k : Bytes) (t : ℕ)
      → stricmp_eq k name ≡ true
      → lookup k s.last_time ≡ some t
      → is_active now t ≡ true
      → Answer now name s (channel_of k s)

none-some : {t : ℕ} → none ≢ some t
none-some e = cc

later-lookup :
    (j k : Bytes) (t u : ℕ) (m : Dict Bytes ℕ)
    → lookup j m ≡ none
    → lookup k m ≡ some u
    → lookup k ((j, t) ∷ m) ≡ some u
unfolding lookup
later-lookup j k t u m fresh e = elim (Bool-cases (bytes_eq j k)) [
  | inl same ↦
      let p : j ≡ k = (bytes_eq_iff j k).0 same in
      absurd (none-some (sym fresh ∙ (ap (λ i. lookup i m) p ∙ e)))
  | inr other ↦ rw other e
]

abbrev ActiveIn : Dict Bytes ℕ → Speakers → Type 0
ActiveIn m s = (k : Bytes) (t : ℕ) → lookup k m ≡ some t → lookup k s.last_time ≡ some t

search-Answer :
    (now : ℕ) (name : Bytes) (s : Speakers) {m : Dict Bytes ℕ}
    → Distinct m
    → ActiveIn m s
    → Answer now name s (search_speakers now name m s)
unfolding search_speakers lookup
search-Answer now name s distinct_nil sub = silent
search-Answer now name s (distinct_cons {k = j} {v = t} {m} fresh d) sub =
    elim (Bool-cases (stricmp_eq j name && is_active now t)) [
      | inl heard ↦
          rw heard (speaking j t (ground arith) (sub j t (rw (beq_refl j) refl)) (ground arith))
      | inr unheard ↦
          rw unheard
            (search-Answer now name s d (λ k u e. sub k u (later-lookup j k t u m fresh e)))
    ]

-- Where the times have distinct names, the answer to the query is -1, or the channel of a speaker
-- who has the name up to case and was heard less than 600 ms ago.
pub speaking_channel-Answer :
    (now : ℕ) (name : Bytes) (s : Speakers)
    → Distinct s.last_time
    → Answer now name s (speaking_channel now name s)
unfolding speaking_channel
speaking_channel-Answer now [] s d = silent
speaking_channel-Answer now (c ∷ name) s d =
    let search = search-Answer now (c ∷ name) s d (λ k t e. e) in
    elim (Option-cases (lookup (c ∷ name) s.last_time)) [
      | inl e ↦ rw (e, speaking_channel) search
      | inr (t, e) ↦
          rw (e, speaking_channel)
            (elim (Bool-cases (is_active now t)) [
              | inl a ↦ rw a (speaking (c ∷ name) t (beq_refl (map lower (c ∷ name))) e a)
              | inr a ↦ rw a search
            ])
    ]

-- A named speaker noted at time `heard` is found, by that name, on the channel noted, at every time
-- less than 600 ms later, where the times had distinct names and voice.ini has a folder.
pub speaking_channel-note_speaker :
    (heard now : ℕ) (ini path : Bytes) (c : ℕ) (name : Bytes) (ch : ℕ) (s : Speakers)
    → speak_path ini ≡ some path
    → Distinct s.last_time
    → now < heard + 600
    → speaking_channel now (c ∷ name) (note_speaker heard ini (c ∷ name) ch s) ≡ pos ch
unfolding speaking_channel note_speaker
speaking_channel-note_speaker heard now ini path c name ch s p d lt =
    let s' : Speakers = record s {
      channel = insert (c ∷ name) ch s.channel;
      last_time = insert (c ∷ name) heard s.last_time;
    } in
    let both =
      write_voice_speak_ini_lem heard ini path s' p (insert-Distinct (c ∷ name) heard d)
        (c ∷ name) in
    let a : is_active heard heard ≡ true = ground arith in
    let b : is_active now heard ≡ true = ground arith in
    let time : lookup (c ∷ name) (write_voice_speak_ini heard ini s').last_time ≡ some heard =
      both.0
      ∙ rw (lookup-insert_self (c ∷ name) heard s.last_time) (unfold if_active in rw a refl) in
    let chan : lookup (c ∷ name) (write_voice_speak_ini heard ini s').channel ≡ some ch =
      both.1
      ∙ rw
          (
            lookup-insert_self (c ∷ name) heard s.last_time,
            lookup-insert_self (c ∷ name) ch s.channel,
          )
          (unfold kept_channel in rw a refl) in
    rw (time, speaking_channel) (rw b (unfold channel_of in rw (chan, channel_of) refl))
