-- ===== src/Voice/Speaking/Tracked.antt =====
-- The two maps of speakers stay in step.
use l2voice_chat.Base.{
  ℕ, Bool, true, false, [], Option, none, some, ◌≡◌, refl, ap, ◌∙◌, sym, arith, if◌then◌else◌,
  Bytes, bytes_eq, Option-cases, inl, inr,
}
use l2voice_chat.Base.Dict.{text_eq, lookup, lookup-insert, lookup-erase}
use l2voice_chat.Voice.Speaking.{
  Speakers, expired_keys, speak_path, write_voice_speak_ini, note_speaker, release_speaker,
}
use l2voice_chat.Voice.Speaking.Window.{
  distinct_nil, if_active, kept_channel, erase_all-expired_keys, erase-Distinct, erase_all-Distinct,
  insert-Distinct, has, IsTracked,
}

kept-has :
    (now : ℕ) (t ch : Option ℕ)
    → has ch ≡ has t
    → has (kept_channel now t ch) ≡ has (if_active now t)
unfolding kept_channel if_active has
kept-has now none ch h = h
kept-has now (some t) ch h = ground arith

write-IsTracked :
    (now : ℕ) (ini : Bytes) {s : Speakers}
    → IsTracked s
    → IsTracked (write_voice_speak_ini now ini s)
unfolding write_voice_speak_ini
write-IsTracked now ini {s} v = elim (Option-cases (speak_path ini)) [
  | inl e ↦ rw (e, write_voice_speak_ini) v
  | inr (path, e) ↦
      rw (e, write_voice_speak_ini)
        (record {
          times = erase_all-Distinct (expired_keys now s.last_time) v.times;
          paired = λ k.
              let both = erase_all-expired_keys now s v.times k in
              ap has both.1
              ∙ (kept-has now (lookup k s.last_time) (lookup k s.channel) (v.paired k)
                  ∙ ap has (sym both.0));
        })
]

if-has :
    (b : Bool) (v w : ℕ) (c t : Option ℕ)
    → has c ≡ has t
    → has (if b then some v else c) ≡ has (if b then some w else t)
unfolding has
if-has true v w c t h = refl
if-has false v w c t h = h

unless-has :
    (b : Bool) (c t : Option ℕ)
    → has c ≡ has t
    → has (if b then none else c) ≡ has (if b then none else t)
unfolding has
unless-has true c t h = refl
unless-has false c t h = h

note_speaker-IsTracked :
    (now : ℕ) (ini name : Bytes) (ch : ℕ) {s : Speakers}
    → IsTracked s
    → IsTracked (note_speaker now ini name ch s)
unfolding note_speaker
note_speaker-IsTracked now ini name ch {s} v = write-IsTracked now ini (record {
  times = insert-Distinct name now v.times;
  paired = λ k.
      rw (lookup-insert name k ch s.channel, lookup-insert name k now s.last_time)
        (if-has (bytes_eq name k) ch now (lookup k s.channel) (lookup k s.last_time) (v.paired k));
})

release_speaker-IsTracked :
    (ini name : Bytes) {s : Speakers} → IsTracked s → IsTracked (release_speaker ini name s)
unfolding release_speaker
release_speaker-IsTracked ini name {s} v = elim (Option-cases (lookup name s.last_time)) [
  | inl e ↦ rw (e, release_speaker) v
  | inr (t, e) ↦
      rw (e, release_speaker)
        (record {
          times = erase-Distinct name v.times;
          paired = λ k.
              rw (lookup-erase name k s.channel, lookup-erase name k s.last_time)
                (unless-has (bytes_eq name k) (lookup k s.channel) (lookup k s.last_time)
                  (v.paired k));
        })
]

-- What comes of the maps: a frame noted, the player's own name released, the file written, in any
-- order and at any times.
pub data Tracks : Speakers → Type 0 where
  nobody : Tracks (record { channel = []; last_time = []; writes = [] })
  noted :
      (now : ℕ) (ini name : Bytes) (ch : ℕ) {s : Speakers}
      → Tracks s
      → Tracks (note_speaker now ini name ch s)
  released : (ini name : Bytes) {s : Speakers} → Tracks s → Tracks (release_speaker ini name s)
  written :
      (now : ℕ) (ini : Bytes) {s : Speakers} → Tracks s → Tracks (write_voice_speak_ini now ini s)

-- Whatever frames are noted and names released, and whenever the file is written: no name has two
-- times, and a name has a channel exactly if it has a time.
pub Tracks-IsTracked : {s : Speakers} → Tracks s → IsTracked s
unfolding has lookup
Tracks-IsTracked nobody = record { times = distinct_nil; paired = λ k. refl }
Tracks-IsTracked (noted now ini name ch t) =
    note_speaker-IsTracked now ini name ch (Tracks-IsTracked t)
Tracks-IsTracked (released ini name t) = release_speaker-IsTracked ini name (Tracks-IsTracked t)
Tracks-IsTracked (written now ini t) = write-IsTracked now ini (Tracks-IsTracked t)
