-- ===== src/Overlay/Draw/Frames.antt =====
-- A frame of the overlay in which everything is pressed, and one in which nothing is.
use l2voice_chat.Base.{ℕ, Bool, true, false, List, [], ◌∷◌, Option, none, some, codes}
use l2voice_chat.Base.Int.{pos}
use l2voice_chat.Audio.Playback.{Playback}
use l2voice_chat.Json.{GroupMember}
use l2voice_chat.Network.State.{Net, initial_state}
use l2voice_chat.Voice.Tests.{integers, player, connection, listener}
use l2voice_chat.Voice.Lifecycle.{Client}
use l2voice_chat.Voice.Lifecycle.Tests.{unloaded, machine}
use l2voice_chat.Overlay.Support.{SupportChatData}
use l2voice_chat.Overlay.Draw.{Moment, Ui, Place}
use l2voice_chat.Overlay.Draw.Members.{RowInput, GroupInput}
use l2voice_chat.Overlay.Draw.SupportWindow.{Line, SupportInput}
use l2voice_chat.Overlay.Draw.Main.{PanelInput}

abbrev pub member : ℕ → ℕ → GroupMember
member id role = record {
  player_id = id;
  voice_active = true;
  clan_role = role;
  cc_can_speak = false;
  remote_muted = false;
}

-- A clan whose leader is the second of the roster, and a command channel led by player 4.
abbrev pub clan : List GroupMember
clan = member 5 0 ∷ member 4 2 ∷ member 9 0 ∷ member 6 1 ∷ []

abbrev pub net : Net
net = record connection {
  player_id = 9;
  state = record initial_state {
    role = 0;
    cc_id = 3;
    cc_leader_id = 4;
    clan_members = clan;
    cc_members = clan;
  };
}

-- Source 7 speaks.
abbrev pub speaking : Playback integers
speaking = record (listener.playback) {
  sources =
      (
        7,
        record {
          ring = record { buf = λ i. pos 0; wr = 0; rd = 0 };
          gain = pos 1;
          pan = pos 0;
          volume = pos 1;
          muted = false;
          last_mix = 900;
        },
      )
      ∷ [];
}

abbrev pub client : Client integers
client = record unloaded {
  voice = record player { net = net };
  listener = record listener { playback = speaking };
}

abbrev pub moment : Moment integers
moment = record {
  now = 1000;
  half = pos 0;
  ftos = λ x. codes "1.000";
  playback_devices = machine;
  capture_devices = machine;
}

abbrev pub no_chat : SupportChatData
no_chat = record {
  id = pos 0;
  status = pos 0;
  unread_by_player = false;
  unread_count = pos 0;
  messages = [];
}

abbrev pub nowhere : Place
nowhere = record { written = none; last_write_ms = 0 }

abbrev pub ui : Ui integers
ui = record {
  client = client;
  panel = record {
    toggle_vk = 0x2d;
    capture_next_key = false;
    capture_next_slot = 0;
    backend_init = true;
    textures = true;
    dx9 = some 1;
    win32 = true;
  };
  minimized = false;
  language = 0;
  language_writes = [];
  mini_place = nowhere;
  icon_place = nowhere;
  support_open = true;
  last_bg_poll_ms = 0;
  chat = record {
    known = record {
      last_poll_ms = 0;
      poll_active = false;
      player_chat = no_chat;
      admin_tickets = [];
      admin_selected_chat_id = pos 0;
      admin_active_chat = no_chat;
      admin_group_msgs = [];
      bug_reports = [];
      admin_selected_bug_id = pos 0;
      bug_comments = [];
      error = [];
      success_msg = [];
    };
    forms = record {
      player_tab = 0;
      chat_input = [];
      bug_title = [];
      bug_desc = [];
      bug_cat = pos 8;
      bug_prio = pos 1;
      gm_tab = 0;
      gm_reply_input = [];
      staff_input = [];
      bug_comment_input = [];
    };
    polls = [];
    requests = [];
  };
}

abbrev pub line : Bool → Line
line press = record { text = codes "oi"; entered = press; clicked = press }

abbrev pub when : {A : Type 0} → Bool → A → Option A
when true a = some a
when false a = none

abbrev pub row : Bool → RowInput integers
row press = record { mute = when press true; remote = press; volume = when press (pos 1) }

abbrev pub group : Bool → GroupInput integers
group press = record {
  hear = when press false;
  transmit = when press true;
  volume = when press (pos 1);
  rebind = press;
  row = λ id. row press;
}

abbrev pub support : Bool → SupportInput
support press = record {
  shown = true;
  closed = press;
  player = record {
    chat_button = press;
    bug_button = false;
    line = line press;
    title = [];
    desc = [];
    cat = pos 8;
    prio = pos 1;
    submit = press;
  };
  admin = record {
    tickets_button = press;
    staff_button = press;
    bugs_button = press;
    ticket = λ id. press;
    close = press;
    reply = line press;
    staff = line press;
    bug = λ id. press;
    status = when press (pos 2);
    priority = when press (pos 3);
    comment = line press;
  };
}

-- Everything is pressed, or nothing.
abbrev pub frame : Bool → PanelInput integers
frame press = record {
  support = support press;
  icon = record { shown = true; place = (pos 32, pos 32); restore = press };
  mini = record {
    shown = true;
    place = (pos 80, pos 80);
    select = λ id. press;
    support = press;
    transmit = λ channel. press;
    hear = λ slot. press;
    clan_focus = press;
    party_focus = press;
  };
  shown = true;
  minimize = press;
  tabs_shown = true;
  tab = λ channel. true;
  proximity = record {
    volume = when press (pos 2);
    focus = when press true;
    always_on = when press false;
    transmit = press;
    rebind = press;
    playback_device = when press (codes "USB");
    capture_device = when press (codes "USB");
    mute_all = press;
    speaker = λ id. record { mute = when press true; volume = when press (pos 1) };
  };
  group = λ channel. group press;
  grant = λ id. when press true;
  mode = λ mode. press;
  language = press;
}
