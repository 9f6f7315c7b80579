-- ===== src/Overlay/Draw.antt =====
-- The drawing of the panel, as far as it decides something. Dear ImGui asks the player: what a widget
-- answers is an argument, `none` or `false` where the player leaves it alone. What is drawn is a
-- value; sizes, places and colours are left out but where a child says so.
pub mod Talk
pub mod Members
pub mod Position
pub mod TabBar
pub mod Proximity
pub mod MiniList
pub mod SupportWindow
pub mod Banner
pub mod Main
mod Frames
mod Tests
use l2voice_chat.Base.{ℕ, Bool, true, List, Option, none, some, ◌==◌, ◌&&◌, if◌then◌else◌, Bytes}
use l2voice_chat.Base.Int.{ℤ, pos}
use l2voice_chat.Audio.Float.{FloatOps}
use l2voice_chat.Audio.Device.{Answers}
use l2voice_chat.Audio.Playback.{Playback, SpeakerInfo, get_speaker_infos}
use l2voice_chat.Network.State.{Net}
use l2voice_chat.Voice.State.{Voice, cached_name}
use l2voice_chat.Voice.Incoming.{Listener}
use l2voice_chat.Voice.Lifecycle.{Client}
use l2voice_chat.Overlay.Window.{Panel}
use l2voice_chat.Overlay.Support.{Support}
use l2voice_chat.Overlay.Support.Send.{Request}
use l2voice_chat.Network.Commands.{send_name_query}

-- What the drawing of a window that can be moved keeps: the place that was written last, once it is
-- known, and when.
pub record Place : Type 0 where
  pub written : Option (ℤ × ℤ)
  pub last_write_ms : ℕ

-- The texts and choices of the support window.
pub record Forms : Type 0 where
  pub player_tab : ℕ
  pub chat_input : Bytes
  pub bug_title : Bytes
  pub bug_desc : Bytes
  pub bug_cat : ℤ
  pub bug_prio : ℤ
  pub gm_tab : ℕ
  pub gm_reply_input : Bytes
  pub staff_input : Bytes
  pub bug_comment_input : Bytes

-- `polls` and `requests` collect the threads that were started: the polls with the player and
-- whether it is a game master, and what the others post.
pub record Chat : Type 0 where
  pub known : Support
  pub forms : Forms
  pub polls : List (ℕ × Bool)
  pub requests : List Request

-- What a widget that reports a change does.
abbrev pub changed : {A S : Type 0} → Option A → (A → S → S) → S → S
changed none f s = s
changed (some a) f s = f a s

-- What a button does.
abbrev pub pressed : {S : Type 0} → Bool → (S → S) → S → S
pressed b f s = if b then f s else s

module _ (ops : FloatOps) where
  open ops use {F}

  -- What a frame meets besides the player: the clock, the literal `0.5f`, the text of a volume, and
  -- what the devices answer.
  pub record Moment : Type 0 where
    pub now : ℕ
    pub half : F
    pub ftos : F → Bytes
    pub playback_devices : Answers
    pub capture_devices : Answers

  -- The module, and the globals and statics of the overlay. `language_writes` collects what went to
  -- voice.ini.
  pub record Ui : Type 0 where
    pub client : Client ops
    pub panel : Panel
    pub minimized : Bool
    pub language : ℕ
    pub language_writes : List ℕ
    pub mini_place : Place
    pub icon_place : Place
    pub support_open : Bool
    pub last_bg_poll_ms : ℕ
    pub chat : Chat

  abbrev pub on_net : (Net → Net) → Client ops → Client ops
  on_net f c = record c { voice = record (c.voice) { net = f c.voice.net } }

  abbrev pub on_voice : (Voice F → Voice F) → Client ops → Client ops
  on_voice f c = record c { voice = f c.voice }

  abbrev pub on_listener : (Listener ops → Net → Listener ops × Net) → Client ops → Client ops
  on_listener f c =
      let (l, n) = f c.listener c.voice.net in
      record c { listener = l; voice = record (c.voice) { net = n } }

  abbrev pub on_client : (Client ops → Client ops) → Ui → Ui
  on_client f u = record u { client = f u.client }

  -- `g_captureNextKey.load() && g_captureNextSlot.load() == slot`
  abbrev pub is_capturing : ℕ → Ui → Bool
  is_capturing slot u = u.panel.capture_next_key && u.panel.capture_next_slot == slot

  -- The button that asks for a key, which is there while none is asked for.
  unfoldable pub rebind : ℕ → Bool → Ui → Ui
  rebind slot click u =
      if is_capturing slot u
      then u
      else pressed click
          (λ w. record w {
            panel = record (w.panel) { capture_next_slot = slot; capture_next_key = true };
          })
          u

  -- `GetSpeakerName` with a buffer for `room` bytes and the NUL.
  unfoldable pub ask_speaker_name : ℕ → ℕ → Client ops → Option Bytes × Client ops
  unfolding send_name_query cached_name
  ask_speaker_name room src c =
      let n = send_name_query src c.voice.net in (cached_name src room n, on_net (λ old. n) c)

  abbrev pub on_playback : (Playback ops → Playback ops) → Client ops → Client ops
  on_playback f c = record c { listener = record (c.listener) { playback = f c.listener.playback } }

  -- `GetSpeakerList` with room for 64, which drops the sources that are silent for long.
  unfoldable pub get_speaker_list : ℕ → Client ops → List (SpeakerInfo ops) × Client ops
  unfolding get_speaker_infos
  get_speaker_list now c =
      let (rows, p) = get_speaker_infos ops now 64 c.listener.playback in
      (rows, on_playback (λ old. p) c)
