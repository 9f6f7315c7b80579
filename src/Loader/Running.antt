-- ===== src/Loader/Running.antt =====
-- What runs while the module runs, and only then.
use l2voice_chat.Base.{
  ℕ, Bool, true, false, not, List, Option, none, some, ◌≡◌, refl, ◌∙◌, arith, Bytes, if_cases,
}
use l2voice_chat.Audio.Float.{FloatOps}
use l2voice_chat.Audio.Device.{Answers}
use l2voice_chat.Voice.Prefs.{load_config_from_ini, ini_write_int}
use l2voice_chat.Voice.Presence.{refresh_client_ports}
use l2voice_chat.Voice.Lifecycle.{Setup, Client, init, keepalive_round}
use l2voice_chat.Voice.Lifecycle.Orderly.{
  IsOrderly, on_render_frame-keeps, init-IsOrderly, shutdown-IsOrderly, keepalive_round-IsOrderly,
  keepalive_round-running, set_capture_device-IsOrderly, set_playback_device-IsOrderly,
  set_master_volume-IsOrderly, set_char_name-IsOrderly, init-running, init_again,
}
use l2voice_chat.Voice.Panel.{
  set_capture_device, set_playback_device, set_master_volume, set_char_name, ini_write_text,
  restart_capture, restart_playback,
}
use l2voice_chat.Loader.{Loader, start_module, init_worker, poll, detach}

not-false : (b : Bool) → not b ≡ false → b ≡ true
not-false true h = refl
not-false false h = cc

module _ {ops : FloatOps} where
  open ops use {F}

  -- The client is orderly, and the polling too runs only while the module runs.
  pub record IsTidy (l : Loader ops) : Type 0 where
    pub client : IsOrderly l.client
    pub polls : l.polling ≡ true → l.client.voice.running ≡ true

  start_module-IsTidy :
      (path : Bytes) (s : Setup) (l : Loader ops) → IsTidy l → IsTidy (start_module ops path s l)
  unfolding start_module
  start_module-IsTidy path s l t =
      let cfg = load_config_from_ini ops s.ini in
      let set : Client ops = record (l.client) {
        voice = record (l.client.voice) { ini_path = path };
      } in
      let o : IsOrderly set = record {
        captures = t.client.captures;
        plays = t.client.plays;
        connects = t.client.connects;
        thread = t.client.thread;
        encodes = t.client.encodes;
      } in
      if_cases IsTidy (not cfg.enabled) (λ disabled. record { client = o; polls = t.polls })
        (λ enabled.
          if_cases IsTidy (not (init ops s cfg set).1)
            (λ failed. record {
              client = init-IsOrderly s cfg set o;
              polls = λ h. init_again s cfg set (t.polls h);
            })
            (λ ok. record {
              client = init-IsOrderly s cfg set o;
              polls = λ h. init-running s cfg set o ∙ not-false _ ok;
            }))

  init_worker-IsTidy :
      (found : ℕ → Bool) (path : Bytes) (s : Setup) (l : Loader ops)
      → IsTidy l
      → IsTidy (init_worker ops found path s l)
  unfolding init_worker
  init_worker-IsTidy found path s l t =
      if_cases IsTidy _ (λ absent. t) (λ there. start_module-IsTidy path s l t)

  poll-IsTidy :
      (now : ℕ) (ports : List ℕ) (l : Loader ops) → IsTidy l → IsTidy (poll ops now ports l)
  unfolding poll
  poll-IsTidy now ports l t =
      if_cases IsTidy l.polling
        (λ polling.
          let running = on_render_frame-keeps now ports l.client.voice in
          let runs = t.polls polling in
          record {
            client = record {
              captures = λ h. running ∙ runs;
              plays = λ h. running ∙ runs;
              connects = λ h. running ∙ runs;
              thread = λ h. t.client.thread runs;
              encodes = λ h. t.client.encodes runs;
            };
            polls = λ h. running ∙ runs;
          })
        (λ idle. t)

  detach-IsTidy : (l : Loader ops) → IsTidy l → IsTidy (detach ops l)
  unfolding detach
  detach-IsTidy l t = record { client = shutdown-IsOrderly l.client t.client; polls = λ h. cc }

  -- Nothing runs: the library has just been loaded.
  pub record IsAtRest (l : Loader ops) : Type 0 where
    pub module_off : l.client.voice.running ≡ false
    pub capture_off : l.client.capture.running ≡ false
    pub playback_off : l.client.listener.playback.running ≡ false
    pub net_off : l.client.voice.net.started ≡ false
    pub poll_off : l.polling ≡ false

  at_rest-IsTidy : (l : Loader ops) → IsAtRest l → IsTidy l
  at_rest-IsTidy l r = record {
    client = record {
      captures = λ h. ground arith;
      plays = λ h. ground arith;
      connects = λ h. ground arith;
      thread = λ h. ground arith;
      encodes = λ h. ground arith;
    };
    polls = λ h. ground arith;
  }

-- What the overlay's setters leave of the module's state.
module _ (ops : FloatOps) where
  open ops use {F}

  set_capture_device-running :
      (a : Answers) (name : Option Bytes) (c : Client ops)
      → (set_capture_device ops a name c).voice.running ≡ c.voice.running
  unfolding set_capture_device ini_write_text restart_capture
  set_capture_device-running a none c = refl
  set_capture_device-running a (some name) c = ground arith

  set_playback_device-running :
      (a : Answers) (name : Option Bytes) (c : Client ops)
      → (set_playback_device ops a name c).voice.running ≡ c.voice.running
  unfolding set_playback_device ini_write_text restart_playback
  set_playback_device-running a none c = refl
  set_playback_device-running a (some name) c = ground arith

  set_master_volume-running :
      (half g : F) (c : Client ops)
      → (set_master_volume ops half g c).voice.running ≡ c.voice.running
  unfolding set_master_volume ini_write_int
  set_master_volume-running half g c = ground arith

  set_char_name-running :
      (now : ℕ) (ports : List ℕ) (name : Option Bytes) (c : Client ops)
      → (set_char_name ops now ports name c).voice.running ≡ c.voice.running
  unfolding set_char_name ini_write_text refresh_client_ports
  set_char_name-running now ports none c = refl
  set_char_name-running now ports (some name) c = ground arith

-- A step: `InitWorker`, a round of the polling, the unloading of the library, the end of a round of
-- a keep-alive thread, or a setting made in the overlay.
pub data Step (ops : FloatOps) : Loader ops → Loader ops → Type 0 where
  attached :
      {l : Loader ops} (found : ℕ → Bool) (path : Bytes) (s : Setup)
      → Step ops l (init_worker ops found path s l)
  polled : {l : Loader ops} (now : ℕ) (ports : List ℕ) → Step ops l (poll ops now ports l)
  detached : {l : Loader ops} → Step ops l (detach ops l)
  round : {l : Loader ops} → Step ops l (record l { client = keepalive_round ops l.client })
  captured :
      {l : Loader ops} (a : Answers) (name : Option Bytes)
      → Step ops l (record l { client = set_capture_device ops a name l.client })
  played :
      {l : Loader ops} (a : Answers) (name : Option Bytes)
      → Step ops l (record l { client = set_playback_device ops a name l.client })
  louder :
      {l : Loader ops} (half g : ops.F)
      → Step ops l (record l { client = set_master_volume ops half g l.client })
  named :
      {l : Loader ops} (now : ℕ) (ports : List ℕ) (name : Option Bytes)
      → Step ops l (record l { client = set_char_name ops now ports name l.client })

pub data Reach (ops : FloatOps) : Loader ops → Type 0 where
  loaded : {l : Loader ops} → IsAtRest l → Reach ops l
  next : {l m : Loader ops} → Reach ops l → Step ops l m → Reach ops m

module _ {ops : FloatOps} where
  set-IsTidy :
      {l : Loader ops} (c : Client ops)
      → IsOrderly c
      → c.voice.running ≡ l.client.voice.running
      → IsTidy l
      → IsTidy (record l { client = c })
  set-IsTidy c o same t = record { client = o; polls = λ h. same ∙ t.polls h }

  Step-IsTidy : {l m : Loader ops} → Step ops l m → IsTidy l → IsTidy m
  Step-IsTidy (attached {l} found path s) t = init_worker-IsTidy found path s l t
  Step-IsTidy (polled {l} now ports) t = poll-IsTidy now ports l t
  Step-IsTidy (detached {l}) t = detach-IsTidy l t
  Step-IsTidy (round {l}) t =
      set-IsTidy _ (keepalive_round-IsOrderly l.client t.client) (keepalive_round-running l.client)
        t
  Step-IsTidy (captured {l} a name) t =
      set-IsTidy _ (set_capture_device-IsOrderly a name l.client t.client)
        (set_capture_device-running ops a name l.client) t
  Step-IsTidy (played {l} a name) t =
      set-IsTidy _ (set_playback_device-IsOrderly a name l.client t.client)
        (set_playback_device-running ops a name l.client) t
  Step-IsTidy (louder {l} half g) t =
      set-IsTidy _ (set_master_volume-IsOrderly half g l.client t.client)
        (set_master_volume-running ops half g l.client) t
  Step-IsTidy (named {l} now ports name) t =
      set-IsTidy _ (set_char_name-IsOrderly now ports name l.client t.client)
        (set_char_name-running ops now ports name l.client) t

  -- From the loading of the library on, whatever of this happens in whatever order (the worker that
  -- starts the module, rounds of the polling, the unloading, rounds of the keep-alive threads, changes
  -- of the devices, the volume and the name), each ending before the next begins, and whatever the
  -- devices and libraries answer: the microphone, the output, the connection and the polling run only
  -- while the module runs, which then has its encoder and a keep-alive thread.
  pub Reach-IsTidy : {l : Loader ops} → Reach ops l → IsTidy l
  Reach-IsTidy (loaded {l} r) = at_rest-IsTidy l r
  Reach-IsTidy (next r s) = Step-IsTidy s (Reach-IsTidy r)
