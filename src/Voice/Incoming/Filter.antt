-- ===== src/Voice/Incoming/Filter.antt =====
-- Which packets are played, and what a packet leaves alone.
use l2voice_chat.Base.{◌||◌, none, some, [], ℕ, Bool, true, List, Option, ◌≡◌, Bytes}
use l2voice_chat.Base.Int.{ℤ}
use l2voice_chat.Base.Dict.{nat_eq, lookup}
use l2voice_chat.Audio.Float.{FloatOps}
use l2voice_chat.Audio.Ring.{push}
use l2voice_chat.Audio.Mixer.{Source}
use l2voice_chat.Audio.Playback.{Playback, source_of}
use l2voice_chat.Wire.{Packet}
use l2voice_chat.Voice.State.{Voice}
use l2voice_chat.Voice.Incoming.{Listener}

-- The player listens to the channel: proximity is 0, the party 1, the clan 2, the alliance 3, and
-- the command channel 4 goes with the clan.
pub record IsOn (enabled : ℕ → Bool) (channel : ℕ) : Type 0 where
  pub proximity : channel ≡ 0 → enabled 0 ≡ true
  pub party : channel ≡ 1 → enabled 1 ≡ true
  pub clan : channel ≡ 2 → enabled 2 ≡ true
  pub ally : channel ≡ 3 → enabled 3 ≡ true
  pub command : channel ≡ 4 → enabled 2 ≡ true

module _ (ops : FloatOps) where
  -- The samples wait behind those of the source, and the source `j` is as it was.
  pub record IsQueued (now src : ℕ) (pcm : List ℤ) (j : ℕ) (before after : Playback ops)
      : Type 0 where
    pub queued :
        (s : Source ops) × (lookup src after.sources ≡ some s)
        × (s.ring ≡ push (source_of ops now src before).ring pcm)
    pub other : lookup j after.sources ≡ lookup j before.sources

  -- What is left alone by a packet that is dropped.
  abbrev pub IsDropped : Listener ops → Voice ops.F → Listener ops × Voice ops.F → Type 0
  IsDropped l v r = (r.0 ≡ l) × (r.1.speakers ≡ v.speakers) × (r.1.ch_prefs ≡ v.ch_prefs)

  -- Why a packet is dropped: the player does not listen to its channel, asks to hear only the leader
  -- of the clan or the party, or no decoder makes samples of the packet.
  pub data Reason (decode : ℕ → Option (Bytes → List ℤ)) (packet : Packet) (l : Listener ops)
      (v : Voice ops.F) : Type 0 where
    off : ¬ IsOn v.ch_prefs.enabled packet.channel → Reason decode packet l v
    leader :
        (l.prioritize_clan_leader || l.prioritize_party_leader) ≡ true → Reason decode packet l v
    no_decoder : decode packet.src ≡ none → Reason decode packet l v
    no_samples :
        (d : Bytes → List ℤ)
        → decode packet.src ≡ some d
        → d packet.payload ≡ []
        → Reason decode packet l v

  -- A packet that is played: a decoder makes samples of it, which are queued.
  abbrev pub IsPlayed :
      (ℕ → Option (Bytes → List ℤ))
      → ℕ
      → Packet
      → ℕ
      → Listener ops
      → Voice ops.F
      → Listener ops × Voice ops.F
      → Type 0
  IsPlayed decode now packet j l v r =
      (d : Bytes → List ℤ) × (decode packet.src ≡ some d)
      × IsQueued now packet.src (d packet.payload) j l.playback r.0.playback
      × (r.1.ch_prefs ≡ v.ch_prefs)
