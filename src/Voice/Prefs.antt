-- ===== src/Voice/Prefs.antt =====
-- The settings: `DefaultConfig`, `LoadConfigFromIni`, `LoadChannelPrefs`, the setters that write to
-- voice.ini, and the callback of `Init` that tells the service of them. Windows' reading of an ini
-- file is a parameter; strings of the file are ASCII.
pub mod Laws
mod Tests
use l2voice_chat.Base.{
  ℕ, zero, suc, ◌+◌, ◌-◌, Bool, true, false, not, ◌&&◌, ◌||◌, List, [], ◌∷◌, ◌++◌, Option, none,
  some, ltb, ◌==◌, if◌then◌else◌, Bytes, codes, decimal, take, after,
}
use l2voice_chat.Base.Int.{ℤ, pos, negsuc}
use l2voice_chat.Audio.Float.{FloatOps}
use l2voice_chat.Network.State.{Net}
use l2voice_chat.Network.Commands.{send_set_channel_enabled, send_set_channel_volume}
use l2voice_chat.Voice.State.{Config, ChannelPrefs, Voice}

-- `GetPrivateProfileStringW` with the default `""`, and `GetPrivateProfileIntW`.
pub record IniReader : Type 0 where
  pub string : Bytes → Bytes
  pub int : Bytes → ℤ → ℤ

-- `getS`: a buffer of `cap` bytes, and the default for an empty value.
unfoldable pub read_string : IniReader → Bytes → ℕ → Bytes → Bytes
read_string r key cap def = elim (r.string key) [ [] ↦ def | c ∷ s ↦ take (cap - 1) (c ∷ s) ]

abbrev pub is_nonzero : ℤ → Bool
is_nonzero (pos zero) = false
is_nonzero _ = true

-- `if (pct < 0) pct = 0; if (pct > 200) pct = 200;`
unfoldable pub clamp_percent : ℤ → ℤ
clamp_percent (pos n) = if ltb 200 n then pos 200 else pos n
clamp_percent (negsuc n) = pos 0

-- `if (sel < 0 || sel > 4) sel = 0;`
unfoldable pub clamp_tx_channel : ℤ → ℤ
clamp_tx_channel (pos n) = if ltb 4 n then pos 0 else pos n
clamp_tx_channel (negsuc n) = pos 0

abbrev pub enabled_key : ℕ → Bytes
enabled_key i = codes "ch_enabled_" ++ decimal i

abbrev pub volume_key : ℕ → Bytes
volume_key i = codes "ch_volume_" ++ decimal i

-- `IniReadInt` on a module with the path `ini`.
unfoldable pub ini_read_int : IniReader → Bytes → Bytes → ℤ → ℤ
ini_read_int r [] key fallback = fallback
ini_read_int r (c ∷ ini) key fallback = r.int key fallback

abbrev pub flag : Bool → ℤ
flag b = if b then pos 1 else pos 0

-- `a[channel] = x`
unfoldable pub set_at : {A : Type 0} → ℕ → A → (ℕ → A) → ℕ → A
set_at channel x a i = if i == channel then x else a i

module _ {F : Type 0} where
  unfoldable pub ini_write_int : Bytes → ℤ → Voice F → Voice F
  ini_write_int key value v = elim v.ini_path [
    | [] ↦ v
    | _ ∷ _ ↦ record v { ini_writes = v.ini_writes ++ ((key, value) ∷ []) }
  ]

  unfoldable pub set_require_focus : Bool → Voice F → Voice F
  unfolding ini_write_int
  set_require_focus b v =
      ini_write_int (codes "require_focus") (flag b)
        (record v { cfg = record (v.cfg) { require_focus = b } })

  unfoldable pub set_always_on : Bool → Voice F → Voice F
  unfolding ini_write_int
  set_always_on b v =
      ini_write_int (codes "always_on") (flag b)
        (record v { cfg = record (v.cfg) { always_on = b } })

  unfoldable pub set_ptt_proximity_vk : ℤ → Voice F → Voice F
  unfolding ini_write_int
  set_ptt_proximity_vk vk v =
      ini_write_int (codes "ptt_proximity") vk
        (record v { cfg = record (v.cfg) { ptt_proximity = vk } })

  unfoldable pub set_ptt_party_vk : ℤ → Voice F → Voice F
  unfolding ini_write_int
  set_ptt_party_vk vk v =
      ini_write_int (codes "ptt_party") vk (record v { cfg = record (v.cfg) { ptt_party = vk } })

  unfoldable pub set_ptt_clan_vk : ℤ → Voice F → Voice F
  unfolding ini_write_int
  set_ptt_clan_vk vk v =
      ini_write_int (codes "ptt_clan") vk (record v { cfg = record (v.cfg) { ptt_clan = vk } })

  unfoldable pub set_ptt_ally_vk : ℤ → Voice F → Voice F
  unfolding ini_write_int
  set_ptt_ally_vk vk v =
      ini_write_int (codes "ptt_ally") vk (record v { cfg = record (v.cfg) { ptt_ally = vk } })

  unfoldable pub set_channel_enabled : ℤ → Bool → Voice F → Voice F
  unfolding set_at ini_write_int send_set_channel_enabled
  set_channel_enabled (negsuc n) b v = v
  set_channel_enabled (pos c) b v =
      if ltb 3 c
      then v
      else let v' = ini_write_int (enabled_key c) (flag b) (record v {
        ch_prefs = record (v.ch_prefs) { enabled = set_at c b v.ch_prefs.enabled };
      }) in
        record v' { net = send_set_channel_enabled c b v'.net }

  unfoldable pub set_active_tx_channel : ℤ → Voice F → Voice F
  unfolding ini_write_int
  set_active_tx_channel (negsuc n) v = v
  set_active_tx_channel (pos c) v =
      if ltb 4 c
      then v
      else ini_write_int (codes "active_tx_channel") (pos c)
          (record v { ch_prefs = record (v.ch_prefs) { active_tx_channel = pos c } })

module _ (ops : FloatOps) where
  open ops use {F, add, mul, div, less, of_int, to_int}

  abbrev pub default_config : Config F
  default_config = record {
    ws_url = codes "ws://127.0.0.1:17667/ws";
    capture_device = [];
    playback_device = [];
    min_dist_cm = of_int (pos 500);
    max_dist_cm = of_int (pos 2500);
    ptt_proximity = pos b'H';
    ptt_party = pos b'B';
    ptt_clan = pos b'N';
    ptt_ally = pos b'M';
    enabled = true;
    auto_connect = true;
    require_focus = true;
    always_on = true;
    master_volume = of_int (pos 1);
    char_name = [];
  }

  unfoldable pub load_config_from_ini : IniReader → Config F
  unfolding read_string
  load_config_from_ini r =
      let c = default_config in
      record {
        ws_url = read_string r (codes "ws_url") 256 c.ws_url;
        capture_device = read_string r (codes "capture_device") 128 [];
        playback_device = read_string r (codes "playback_device") 128 [];
        char_name = read_string r (codes "char_name") 64 [];
        min_dist_cm = of_int (r.int (codes "min_dist_cm") (to_int c.min_dist_cm));
        max_dist_cm = of_int (r.int (codes "max_dist_cm") (to_int c.max_dist_cm));
        ptt_proximity = r.int (codes "ptt_proximity") c.ptt_proximity;
        ptt_party = r.int (codes "ptt_party") c.ptt_party;
        ptt_clan = r.int (codes "ptt_clan") c.ptt_clan;
        ptt_ally = r.int (codes "ptt_ally") c.ptt_ally;
        enabled = is_nonzero (r.int (codes "enabled") (pos 1));
        auto_connect = is_nonzero (r.int (codes "auto_connect") (pos 1));
        require_focus = is_nonzero (r.int (codes "require_focus") (pos 1));
        always_on = is_nonzero (r.int (codes "always_on") (pos 1));
        master_volume = div (of_int (r.int (codes "master_volume") (pos 100))) (of_int (pos 100));
      }

  -- `LoadChannelPrefs`, which sets the first four entries.
  unfoldable pub load_channel_prefs : IniReader → Voice F → Voice F
  unfolding ini_read_int clamp_percent clamp_tx_channel
  load_channel_prefs r v =
      let old = v.ch_prefs in
      let percent = λ (i : ℕ). clamp_percent (ini_read_int r v.ini_path (volume_key i) (pos 100)) in
      record v {
        ch_prefs = record {
          enabled = λ i.
              if ltb i 4
              then is_nonzero (ini_read_int r v.ini_path (enabled_key i) (pos 1))
              else old.enabled i;
          volume =
              λ i. if ltb i 4 then div (of_int (percent i)) (of_int (pos 100)) else old.volume i;
          active_tx_channel =
              clamp_tx_channel (ini_read_int r v.ini_path (codes "active_tx_channel") (pos 0));
        };
      }

  -- `if (volume < 0) volume = 0; if (volume > 2) volume = 2;`
  unfoldable pub clamp_channel_volume : F → F
  clamp_channel_volume x =
      let low = if less x (of_int (pos 0)) then of_int (pos 0) else x in
      if less (of_int (pos 2)) low then of_int (pos 2) else low

  -- `half` is the literal `0.5f`, and `ftos` makes the text of a volume.
  unfoldable pub set_channel_volume : F → (F → Bytes) → ℤ → F → Voice F → Voice F
  unfolding clamp_channel_volume set_at ini_write_int send_set_channel_volume
  set_channel_volume half ftos (negsuc n) x v = v
  set_channel_volume half ftos (pos c) x v =
      if ltb 3 c
      then v
      else let y = clamp_channel_volume x in
        let v' =
          ini_write_int (volume_key c) (to_int (add (mul y (of_int (pos 100))) half)) (record v {
            ch_prefs = record (v.ch_prefs) { volume = set_at c y v.ch_prefs.volume };
          }) in
        record v' { net = send_set_channel_volume c (ftos y) v'.net }

  -- The callback `on_auth` that `Init` passes to `Start`: channel `i`, with `todo` channels left.
  unfoldable pub push_channel_prefs : (F → Bytes) → ChannelPrefs F → ℕ → ℕ → Net → Net
  unfolding send_set_channel_enabled send_set_channel_volume
  push_channel_prefs ftos p zero i n = n
  push_channel_prefs ftos p (suc todo) i n =
      push_channel_prefs ftos p todo (i + 1)
        (send_set_channel_volume i (ftos (p.volume i)) (send_set_channel_enabled i (p.enabled i) n))
