-- ===== src/Voice/Prefs/Laws.antt =====
-- What the setters store, and what a session does with the callbacks that `Init` gives it.
use l2voice_chat.Base.{
  Option, subst, sym, ℕ, zero, suc, ◌+◌, ◌≤◌, Bool, true, false, List, [], ◌∷◌, ◌++◌, ◌≡◌, refl, ap,
  ◌∙◌, arith, ltb, ◌==◌, if◌then◌else◌, Bytes, codes, Bool-cases, if_intro, inl, inr, ◌≢◌, ◌⊎◌,
  ==_refl,
}
use l2voice_chat.Base.Int.{ℤ, pos}
use l2voice_chat.Audio.Float.{FloatOps}
use l2voice_chat.Network.State.{Net}
use l2voice_chat.Network.Commands.{send_set_channel_enabled, send_set_channel_volume}
use l2voice_chat.Network.Session.{is_empty, Hooks, set_client_ports}
use l2voice_chat.Network.Session.Sound.{IsSound, set_client_ports-IsSound}
use l2voice_chat.Network.Session.Reach.{Reach, Reach-IsSound}
use l2voice_chat.Voice.Incoming.{Listener, on_incoming_packet}
use l2voice_chat.Voice.Incoming.Session.{on_incoming_packet-IsSound}
use l2voice_chat.Voice.State.{ChannelPrefs, Voice}
use l2voice_chat.Voice.Prefs.{
  IniReader, clamp_tx_channel, ini_read_int, ini_write_int, set_active_tx_channel,
  load_channel_prefs, clamp_channel_volume, set_at, volume_key, set_channel_volume,
  push_channel_prefs,
}

set_active_tx_channel_lem :
    {F : Type 0} (c p : ℕ) (path : Bytes) (v : Voice F)
    → ltb 4 c ≡ false
    → v.ini_path ≡ p ∷ path
    → set_active_tx_channel (pos c) v ≡ record v {
      ch_prefs = record (v.ch_prefs) { active_tx_channel = pos c };
      ini_writes = v.ini_writes ++ ((codes "active_tx_channel", pos c) ∷ []);
    }
unfolding set_active_tx_channel ini_write_int
set_active_tx_channel_lem c p path v small e =
    let w = record v { ch_prefs = record (v.ch_prefs) { active_tx_channel = pos c } } in
    let key : Bytes × ℤ = (codes "active_tx_channel", pos c) in
    ap (λ b. if b then v else ini_write_int (codes "active_tx_channel") (pos c) w) small
    ∙ ap (λ i. elim i [ [] ↦ w | _ ∷ _ ↦ record w { ini_writes = v.ini_writes ++ (key ∷ []) } ]) e

reload :
    (ops : FloatOps) (r : IniReader) (c p : ℕ) (path : Bytes) (v : Voice ops.F)
    → ltb 4 c ≡ false
    → v.ini_path ≡ p ∷ path
    → r.int (codes "active_tx_channel") (pos 0) ≡ pos c
    → (load_channel_prefs ops r v).ch_prefs.active_tx_channel ≡ pos c
unfolding load_channel_prefs clamp_tx_channel ini_read_int
reload ops r c p path v small e back =
    ap (λ i. clamp_tx_channel (ini_read_int r i (codes "active_tx_channel") (pos 0))) e
    ∙ (ap clamp_tx_channel back ∙ ap (λ b. if b then pos 0 else pos c) small)

-- Where voice.ini has a path: a channel of 0 to 4 that is selected is the last thing written to the
-- file, and a later start that reads this value back selects the same channel.
pub set_active_tx_channel-load :
    (ops : FloatOps) (r : IniReader) (c p : ℕ) (path : Bytes) (v : Voice ops.F)
    → c ≤ 4
    → v.ini_path ≡ p ∷ path
    → ((fallback : ℤ) → r.int (codes "active_tx_channel") fallback ≡ pos c)
    → ((set_active_tx_channel (pos c) v).ini_writes
        ≡ v.ini_writes ++ ((codes "active_tx_channel", pos c) ∷ []))
      × ((load_channel_prefs ops r (set_active_tx_channel (pos c) v)).ch_prefs.active_tx_channel
          ≡ (set_active_tx_channel (pos c) v).ch_prefs.active_tx_channel)
set_active_tx_channel-load ops r c p path v le e back =
    let small : ltb 4 c ≡ false = ground arith in
    rw (set_active_tx_channel_lem c p path v small e)
      (refl, reload ops r c p path _ small e (back (pos 0)))

enabled-IsSound :
    (i : ℕ) (b : Bool) {n : Net} → IsSound n → IsSound (send_set_channel_enabled i b n)
unfolding send_set_channel_enabled
enabled-IsSound i b v = ground arith

volume-IsSound : (i : ℕ) (t : Bytes) {n : Net} → IsSound n → IsSound (send_set_channel_volume i t n)
unfolding send_set_channel_volume
volume-IsSound i t v = ground arith

path_cases : (s : Bytes) → (s ≡ []) ⊎ ((c : ℕ) × (t : Bytes) × (s ≡ c ∷ t))
path_cases [] = inl refl
path_cases (c ∷ t) = inr (c, t, refl)

ini_write_int_prefs :
    {F : Type 0} (key : Bytes) (value : ℤ) (v : Voice F)
    → (ini_write_int key value v).ch_prefs ≡ v.ch_prefs
unfolding ini_write_int
ini_write_int_prefs key value v = elim (path_cases v.ini_path) [
  | inl e ↦ rw (e, ini_write_int) refl
  | inr (c, s, e) ↦ rw (e, ini_write_int) refl
]

module _ (ops : FloatOps) (half : ops.F) (ftos : ops.F → Bytes) where
  open ops use {F, add, mul, less, of_int, to_int}

  clamp-bounds :
      less (of_int (pos 0)) (of_int (pos 0)) ≡ false
      → less (of_int (pos 2)) (of_int (pos 2)) ≡ false
      → less (of_int (pos 2)) (of_int (pos 0)) ≡ false
      → (x : F)
      → (less (clamp_channel_volume ops x) (of_int (pos 0)) ≡ false)
        × (less (of_int (pos 2)) (clamp_channel_volume ops x) ≡ false)
  unfolding clamp_channel_volume
  clamp-bounds z t tz x = elim (Bool-cases (less x (of_int (pos 0)))) [
    | inl low ↦ rw (low, tz) (z, tz)
    | inr ok ↦ elim (Bool-cases (less (of_int (pos 2)) x)) [
      | inl high ↦ rw (ok, high) (tz, t)
      | inr fine ↦ rw (ok, fine) (ok, fine)
    ]
  ]

  -- The second value is the first one cut to the range from 0 to 2: below it 0, above it 2, and else
  -- the value itself.
  pub data IsCut (x : F) : F → Type 0 where
    below : less x (of_int (pos 0)) ≡ true → IsCut x (of_int (pos 0))
    above :
        less x (of_int (pos 0)) ≡ false → less (of_int (pos 2)) x ≡ true → IsCut x (of_int (pos 2))
    inside : less x (of_int (pos 0)) ≡ false → less (of_int (pos 2)) x ≡ false → IsCut x x

  clamp_channel_volume-IsCut :
      less (of_int (pos 2)) (of_int (pos 0)) ≡ false
      → (x : F) → IsCut x (clamp_channel_volume ops x)
  unfolding clamp_channel_volume
  clamp_channel_volume-IsCut tz x = elim (Bool-cases (less x (of_int (pos 0)))) [
    | inl low ↦ rw (low, tz) (below low)
    | inr ok ↦ elim (Bool-cases (less (of_int (pos 2)) x)) [
      | inl high ↦ rw (ok, high) (above ok high)
      | inr fine ↦ rw (ok, fine) (inside ok fine)
    ]
  ]

  set_channel_volume_lem :
      (c : ℕ) (x : F) (v : Voice F)
      → ltb 3 c ≡ false
      → (set_channel_volume ops half ftos (pos c) x v).ch_prefs.volume
        ≡ set_at c (clamp_channel_volume ops x) v.ch_prefs.volume
  unfolding set_channel_volume
  set_channel_volume_lem c x v small = rw small (
      ap (λ p. p.volume)
        (ini_write_int_prefs (volume_key c)
          (to_int (add (mul (clamp_channel_volume ops x) (of_int (pos 100))) half))
          (record v {
            ch_prefs = record (v.ch_prefs) {
              volume = set_at c (clamp_channel_volume ops x) v.ch_prefs.volume;
            };
          })))

  -- For a float order in which 0 < 0, 2 < 2 and 2 < 0 fail: a volume that is set for a channel of 0
  -- to 3 is stored as 0 where it is below 0, as 2 where it is above 2, and else as it is; what is
  -- stored is neither below 0 nor above 2; and the volumes of the other channels stay.
  pub set_channel_volume-bounds :
      less (of_int (pos 0)) (of_int (pos 0)) ≡ false
      → less (of_int (pos 2)) (of_int (pos 2)) ≡ false
      → less (of_int (pos 2)) (of_int (pos 0)) ≡ false
      → (c i : ℕ) (x : F) (v : Voice F) → c ≤ 3
      → i ≢ c
      → let volume = (set_channel_volume ops half ftos (pos c) x v).ch_prefs.volume in
        IsCut x (volume c)
        × (less (volume c) (of_int (pos 0)) ≡ false)
        × (less (of_int (pos 2)) (volume c) ≡ false)
        × (volume i ≡ v.ch_prefs.volume i)
  unfolding set_at
  set_channel_volume-bounds z t tz c i x v le other =
      let bounds = clamp-bounds z t tz x in
      let same : (c == c) ≡ true = ==_refl c in
      let apart : (i == c) ≡ false = ground arith in
      let stored = set_channel_volume_lem c x v (ground arith) in
      let at_c : (set_channel_volume ops half ftos (pos c) x v).ch_prefs.volume c
          ≡ clamp_channel_volume ops x =
        ap (λ f. f c) stored
        ∙ ap (λ b. if b then clamp_channel_volume ops x else v.ch_prefs.volume c) same in
      let at_i : (set_channel_volume ops half ftos (pos c) x v).ch_prefs.volume i
          ≡ v.ch_prefs.volume i =
        ap (λ f. f i) stored
        ∙ ap (λ b. if b then clamp_channel_volume ops x else v.ch_prefs.volume i) apart in
      (
        subst (IsCut x) (sym at_c) (clamp_channel_volume-IsCut tz x),
        ap (λ y. less y (of_int (pos 0))) at_c ∙ bounds.0,
        ap (λ y. less (of_int (pos 2)) y) at_c ∙ bounds.1,
        at_i,
      )

  -- What the callback sends for each channel.
  push-IsSound :
      (p : ChannelPrefs F) (todo i : ℕ) (n : Net)
      → IsSound n
      → IsSound (push_channel_prefs ops ftos p todo i n)
  unfolding push_channel_prefs
  push-IsSound p zero i n v = v
  push-IsSound p (suc todo) i n v =
      push-IsSound p todo (i + 1) _
        (volume-IsSound i (ftos (p.volume i)) (enabled-IsSound i (p.enabled i) v))

  -- The hook of `Init` on an open connection, given the ports that `RefreshClientPorts` finds.
  abbrev pub report_open : (Net → List ℕ) → Bytes → Net → Net
  report_open ports name n = if is_empty (ports n) then n else set_client_ports (ports n) name n

  -- What a callback finds when an event comes: the clock, the language, the settings, the ports of
  -- the game, the name, the decoders, the output, and the rest of the module.
  pub record Occasion : Type 0 where
    pub now : ℕ
    pub lang : ℕ
    pub prefs : ChannelPrefs F
    pub ports : Net → List ℕ
    pub name : Bytes
    pub decode : ℕ → Option (Bytes → List ℤ)
    pub listener : Listener ops
    pub voice : Voice F

  -- The callbacks that `Init` sets up: on an authentication the settings of the four channels are
  -- sent, on an open connection the ports of the game are reported anew, whichever they are then,
  -- and a packet goes to `OnIncomingPacket`, in the module whose session is the one that calls.
  abbrev pub client_hooks : Occasion → Hooks
  client_hooks m = record {
    env = record { now = m.now; lang = m.lang; on_auth = push_channel_prefs ops ftos m.prefs 4 0 };
    on_ws_open = report_open m.ports m.name;
    on_packet = λ packet n.
        (on_incoming_packet ops m.decode m.now packet m.listener
          (record m.voice { net = n })).1.net;
  }

  -- With the callbacks that `Init` sets for an authentication, an open connection and a packet,
  -- whatever the clock, the language, the settings, the ports, the decoders, the output and the rest
  -- of the module are at each event, and where each event and each call of the client ends before
  -- the next begins: in every state that a session comes to, an authentication is marked as sent
  -- only while the connection is open, a session id is known only with a port, and at most five
  -- toasts wait.
  pub client-IsSound : {n : Net} → Reach client_hooks n → IsSound n
  client-IsSound =
      Reach-IsSound client_hooks (λ m. push-IsSound m.prefs 4 0)
        (λ m n v.
          if_intro IsSound (is_empty (m.ports n)) v (set_client_ports-IsSound (m.ports n) m.name v))
        (λ m packet n v.
          on_incoming_packet-IsSound ops m.decode m.now packet m.listener
            (record m.voice { net = n }) v)
