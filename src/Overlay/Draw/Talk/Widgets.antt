-- ===== src/Overlay/Draw/Talk/Widgets.antt =====
-- The settings that a widget sets, and the widgets themselves.
use l2voice_chat.Base.{
  ℕ, Bool, true, false, ltb, Option, none, some, Bytes, ◌≡◌, refl, subst, sym, arith, if_intro,
}
use l2voice_chat.Base.Int.{ℤ, pos}
use l2voice_chat.Audio.Float.{FloatOps}
use l2voice_chat.Network.State.{Net}
use l2voice_chat.Voice.State.{Voice}
use l2voice_chat.Voice.Prefs.{
  ini_write_int, set_channel_enabled, set_channel_volume, set_active_tx_channel,
}
use l2voice_chat.Voice.Lifecycle.{Client}
use l2voice_chat.Overlay.Draw.{Moment, Ui, changed, pressed, rebind, is_capturing}
use l2voice_chat.Overlay.Draw.Talk.{Talk, hears, louder}

module _ {quiet : Bool} {n : Net} {S : Type 0} (net : S → Net) where
  pub changed-Talk :
      {A : Type 0} (o : Option A) (f : A → S → S) {s : S}
      → Talk quiet n (net s)
      → ((a : A) → o ≡ some a → Talk quiet n (net (f a s)))
      → Talk quiet n (net (changed o f s))
  changed-Talk none f h k = h
  changed-Talk (some a) f h k = k a refl

  pub pressed-Talk :
      (b : Bool) (f : S → S) {s : S}
      → Talk quiet n (net s)
      → (b ≡ true → Talk quiet n (net (f s)))
      → Talk quiet n (net (pressed b f s))
  pressed-Talk true f h k = k refl
  pressed-Talk false f h k = h

abbrev pub net_of : (ops : FloatOps) → Client ops → Net
net_of ops c = c.voice.net

module _ {F : Type 0} where
  pub ini_write_int_net :
      (key : Bytes) (value : ℤ) (v : Voice F) → (ini_write_int key value v).net ≡ v.net
  unfolding ini_write_int
  ini_write_int_net key value v = ground arith

  pub set_active_tx_channel_net :
      (c : ℕ) (v : Voice F) → (set_active_tx_channel (pos c) v).net ≡ v.net
  unfolding set_active_tx_channel
  set_active_tx_channel_net c v =
      if_intro (λ (x : Voice F). x.net ≡ v.net) (ltb 4 c) refl (ini_write_int_net _ _ _)

  pub set_channel_enabled-Talk :
      {quiet : Bool} {n : Net} (c : ℕ) (b : Bool) (v : Voice F)
      → quiet ≡ false
      → Talk quiet n v.net
      → Talk quiet n (set_channel_enabled (pos c) b v).net
  unfolding set_channel_enabled
  set_channel_enabled-Talk {quiet} {n} c b v q h =
      if_intro (λ (x : Voice F). Talk quiet n x.net) (ltb 3 c) h
        (hears c b q (subst (Talk quiet n) (sym (ini_write_int_net _ _ _)) h))

pub set_channel_volume-Talk :
    (ops : FloatOps) {quiet : Bool} {n : Net} (t : Moment ops) (c : ℕ) (x : ops.F) (v : Voice ops.F)
    → quiet ≡ false
    → Talk quiet n v.net
    → Talk quiet n (set_channel_volume ops t.half t.ftos (pos c) x v).net
unfolding set_channel_volume
set_channel_volume-Talk ops {quiet} {n} t c x v q h =
    if_intro (λ (y : Voice ops.F). Talk quiet n y.net) (ltb 3 c) h
      (louder c _ q (subst (Talk quiet n) (sym (ini_write_int_net _ _ _)) h))

module _ (ops : FloatOps) {quiet : Bool} {n : Net} where
  pub rebind-Talk :
      (slot : ℕ) (click : Bool) (u : Ui ops)
      → Talk quiet n (net_of ops u.client)
      → Talk quiet n (net_of ops (rebind ops slot click u).client)
  unfolding rebind
  rebind-Talk slot click u h =
      if_intro (λ (w : Ui ops). Talk quiet n (net_of ops w.client)) (is_capturing ops slot u) h
        (if_intro (λ (w : Ui ops). Talk quiet n (net_of ops w.client)) click h h)
