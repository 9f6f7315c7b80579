-- ===== src/Loader/Tests.antt =====
-- The library is loaded, polls once, loses its microphone, and is unloaded.
use l2voice_chat.Base.{true, false, [], ◌∷◌, some, ◌≡◌, refl, leb, codes}
use l2voice_chat.Voice.Tests.{integers, ini}
use l2voice_chat.Voice.Panel.{set_capture_device}
use l2voice_chat.Voice.Lifecycle.Tests.{machine, setup, unloaded}
use l2voice_chat.Voice.Lifecycle.{keepalive_round}
use l2voice_chat.Loader.{Loader, init_worker, poll, detach}
use l2voice_chat.Loader.Running.{
  IsTidy, IsAtRest, Reach-IsTidy, loaded, next, attached, polled, captured, detached, round,
}

abbrev at_rest : Loader integers
at_rest = record { client = unloaded; polling = false }

at_rest-IsAtRest : IsAtRest at_rest
at_rest-IsAtRest = record {
  module_off = refl;
  capture_off = refl;
  playback_off = refl;
  net_off = refl;
  poll_off = refl;
}

-- The window is found at the third try.
abbrev attached_loader : Loader integers
attached_loader = init_worker integers (leb 2) ini setup at_rest

abbrev polled_loader : Loader integers
polled_loader = poll integers 2000 (50001 ∷ []) attached_loader

attached_loader_polls : attached_loader.polling ≡ true
unfolding init_worker
attached_loader_polls = refl

abbrev unloaded_loader : Loader integers
unloaded_loader = detach integers (record polled_loader {
  client = set_capture_device integers machine (some (codes "HDMI")) polled_loader.client;
})

-- The keep-alive thread is still there, and ends with its round.
threads_left :
    (unloaded_loader.client.keepalive ≡ 1)
    × ((keepalive_round integers unloaded_loader.client).keepalive ≡ 0)
unfolding init_worker detach set_capture_device poll keepalive_round
threads_left = (refl, refl)

Reach-IsTidy_example :
    IsTidy (record unloaded_loader { client = keepalive_round integers unloaded_loader.client })
Reach-IsTidy_example = Reach-IsTidy (
    next
      (next
        (next
          (next (next (loaded at_rest-IsAtRest) (attached (leb 2) ini setup))
            (polled 2000 (50001 ∷ [])))
          (captured machine (some (codes "HDMI"))))
        detached)
      round)
