-- ===== src/Voice/Speaking/Window.antt =====
-- The window of 600 ms: who stays listed when the file is written.
use l2voice_chat.Base.{
  ℕ, Bool, true, false, not, ◌||◌, List, [], ◌∷◌, Option, none, some, ◌≡◌, refl, sym, ap, ◌∙◌,
  arith, if◌then◌else◌, Bytes, bytes_eq, bytes_eq_iff, inl, inr, Bool-cases, if_intro,
}
use l2voice_chat.Base.Dict.{Dict, text_eq, lookup, insert, erase, lookup-insert, lookup-erase}
use l2voice_chat.Voice.Speaking.{
  Speakers, is_active, expired_keys, erase_all, speak_path, write_voice_speak_ini,
}

-- No key stands twice.
pub data Distinct : Dict Bytes ℕ → Type 0 where
  distinct_nil : Distinct []
  distinct_cons :
      {k : Bytes} {v : ℕ} {m : Dict Bytes ℕ}
      → lookup k m ≡ none
      → Distinct m
      → Distinct ((k, v) ∷ m)

unfoldable listed : Bytes → List Bytes → Bool
unfolding bytes_eq
listed k [] = false
listed k (j ∷ ks) = bytes_eq j k || listed k ks

-- What is left of a speaker's time.
unfoldable pub if_active : ℕ → Option ℕ → Option ℕ
if_active now none = none
if_active now (some t) = if is_active now t then some t else none

unfoldable is_expired : ℕ → Option ℕ → Bool
is_expired now none = false
is_expired now (some t) = not (is_active now t)

lookup-erase_all :
    (k : Bytes) (ks : List Bytes) (m : Dict Bytes ℕ)
    → lookup k (erase_all ks m) ≡ (if listed k ks then none else lookup k m)
unfolding erase_all listed
lookup-erase_all k [] m = refl
lookup-erase_all k (j ∷ ks) m =
    lookup-erase_all k ks (erase j m) ∙ rw (lookup-erase j k m) (ground arith)

listed-expired_keys :
    (now : ℕ) (k : Bytes) {m : Dict Bytes ℕ}
    → Distinct m
    → listed k (expired_keys now m) ≡ is_expired now (lookup k m)
unfolding expired_keys listed is_expired lookup
listed-expired_keys now k distinct_nil = refl
listed-expired_keys now k (distinct_cons {k = j} {v = t} {m} fresh d) =
    ground (arith, bytes_eq_iff j k, listed-expired_keys now k d)

-- A name's channel after the file is written, from its time and its channel before.
unfoldable pub kept_channel : ℕ → Option ℕ → Option ℕ → Option ℕ
kept_channel now none ch = ch
kept_channel now (some t) ch = if is_active now t then ch else none

expired_time : (now : ℕ) (o : Option ℕ) → (if is_expired now o then none else o) ≡ if_active now o
unfolding is_expired if_active
expired_time now none = refl
expired_time now (some t) = ground arith

expired_channel :
    (now : ℕ) (o ch : Option ℕ) → (if is_expired now o then none else ch) ≡ kept_channel now o ch
unfolding is_expired kept_channel
expired_channel now none ch = refl
expired_channel now (some t) ch = ground arith

-- Where the times have distinct names, a name keeps its time exactly while that is less than 600 ms
-- ago, and its channel unless the time is older.
pub erase_all-expired_keys :
    (now : ℕ) (s : Speakers)
    → Distinct s.last_time
    → (k : Bytes)
    → (lookup k (erase_all (expired_keys now s.last_time) s.last_time)
        ≡ if_active now (lookup k s.last_time))
      × (lookup k (erase_all (expired_keys now s.last_time) s.channel)
          ≡ kept_channel now (lookup k s.last_time) (lookup k s.channel))
erase_all-expired_keys now s d k = (
  lookup-erase_all k (expired_keys now s.last_time) s.last_time
      ∙ rw (listed-expired_keys now k d) (expired_time now (lookup k s.last_time)),
  lookup-erase_all k (expired_keys now s.last_time) s.channel
      ∙ rw (listed-expired_keys now k d)
          (expired_channel now (lookup k s.last_time) (lookup k s.channel)),
)

-- Where voice.ini has a path with a folder and the times have distinct names, `WriteVoiceSpeakIni`
-- keeps the time of a name exactly while it is less than 600 ms ago, and drops its channel exactly
-- where it drops the time.
pub write_voice_speak_ini_lem :
    (now : ℕ) (ini path : Bytes) (s : Speakers)
    → speak_path ini ≡ some path
    → Distinct s.last_time
    → (k : Bytes)
    → (lookup k (write_voice_speak_ini now ini s).last_time ≡ if_active now (lookup k s.last_time))
      × (lookup k (write_voice_speak_ini now ini s).channel
          ≡ kept_channel now (lookup k s.last_time) (lookup k s.channel))
unfolding write_voice_speak_ini
write_voice_speak_ini_lem now ini path s p d k =
    rw (p, write_voice_speak_ini) (erase_all-expired_keys now s d k)

pub erase-Distinct : (k : Bytes) {m : Dict Bytes ℕ} → Distinct m → Distinct (erase k m)
unfolding erase
erase-Distinct k distinct_nil = distinct_nil
erase-Distinct k (distinct_cons {k = j} {v} {m} fresh d) =
    if_intro Distinct (bytes_eq j k) (erase-Distinct k d)
      (distinct_cons (lookup-erase k j m ∙ rw fresh (ground arith)) (erase-Distinct k d))

pub erase_all-Distinct :
    (ks : List Bytes) {m : Dict Bytes ℕ} → Distinct m → Distinct (erase_all ks m)
unfolding erase_all
erase_all-Distinct [] d = d
erase_all-Distinct (k ∷ ks) d = erase_all-Distinct ks (erase-Distinct k d)

pub insert-Distinct : (k : Bytes) (v : ℕ) {m : Dict Bytes ℕ} → Distinct m → Distinct (insert k v m)
unfolding insert lookup
insert-Distinct k v distinct_nil = distinct_cons refl distinct_nil
insert-Distinct k v (distinct_cons {k = j} {v = w} {m} fresh d) = elim (Bool-cases (bytes_eq j k)) [
  | inl same ↦
      let e : j ≡ k = (bytes_eq_iff j k).0 same in
      rw same (distinct_cons (ap (λ i. lookup i m) (sym e) ∙ fresh) d)
  | inr other ↦ rw other (
      distinct_cons (lookup-insert k j v m ∙ ground (arith, bytes_eq_iff k j, bytes_eq_iff j k))
        (insert-Distinct k v d))
]

unfoldable pub has : Option ℕ → Bool
has none = false
has (some v) = true

-- The names have distinct times, and a name has a channel exactly if it has a time.
pub record IsTracked (s : Speakers) : Type 0 where
  pub times : Distinct s.last_time
  pub paired : (k : Bytes) → has (lookup k s.channel) ≡ has (lookup k s.last_time)
