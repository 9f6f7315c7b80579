-- ===== src/Overlay/Draw/Members/Order.antt =====
-- In which order the members of a channel are drawn.
use l2voice_chat.Base.{
  ℕ, take, leb, ◌&&◌, subst, Bool, true, false, not, List, [], ◌∷◌, ◌++◌, keep, map, Option, none,
  ◌==◌, ◌||◌, ◌≡◌, refl, ap, ap₂, sym, ◌∙◌, if◌then◌else◌, if_intro, Bytes,
}
use mathlib.Core.List.{Perm, perm_middle}
use mathlib.Core.List.Perm
use l2voice_chat.Audio.Float.{FloatOps}
use l2voice_chat.Json.{GroupMember}
use l2voice_chat.Network.State.{Net, ClientState}
use l2voice_chat.Voice.Incoming.{get_group_roster}
use l2voice_chat.Voice.Panel.{OverlayState}
use l2voice_chat.Voice.Lifecycle.{Client}
use l2voice_chat.Overlay.Draw.{Moment, Ui, rebind}
use l2voice_chat.Overlay.Draw.Members.{
  Row, RowInput, GroupInput, is_priority, member_glyph, draw_member_row, draw_loop, draw_roster,
  set_group, draw_group_tab,
}
use l2voice_chat.Overlay.Draw.Members.Rights.{set_group-Talk}
use l2voice_chat.Overlay.Draw.Talk.{Talk, Talk-state, silent}
use l2voice_chat.Overlay.Draw.Talk.Widgets.{net_of, rebind-Talk}

module _ {A B : Type 0} where
  map-append : (f : A → B) (xs ys : List A) → map f (xs ++ ys) ≡ map f xs ++ map f ys
  map-append f [] ys = refl
  map-append f (x ∷ xs) ys = ap (◌∷◌ (f x)) (map-append f xs ys)

  map-perm : (f : A → B) (xs ys : List A) → Perm xs ys → Perm (map f xs) (map f ys)
  map-perm f xs ys p = Perm.map f p

module _ {A : Type 0} where
  keep_all : (xs : List A) → keep (λ x. true) xs ≡ xs
  keep_all [] = refl
  keep_all (x ∷ xs) = ap (◌∷◌ x) (keep_all xs)

  keep_none : (xs : List A) → keep (λ x. false) xs ≡ []
  keep_none [] = refl
  keep_none (x ∷ xs) = keep_none xs

  -- Those that pass a test and then the others are the list in another order.
  pub keep-perm : (p : A → Bool) (xs : List A) → Perm (keep p xs ++ keep (λ x. not (p x)) xs) xs
  keep-perm p [] = Perm.nil
  keep-perm p (x ∷ xs) =
      let rest = keep-perm p xs in
      elim (p x)
        as (λ b.
          Perm
            ((if b then x ∷ keep p xs else keep p xs)
              ++ (if not b then x ∷ keep (λ y. not (p y)) xs else keep (λ y. not (p y)) xs))
            (x ∷ xs)) [
              | true ↦ Perm.cons x rest
              | false ↦
                  Perm.trans (perm_middle (keep p xs) (keep (λ y. not (p y)) xs)) (Perm.cons x rest)
            ]

abbrev pub ids : List GroupMember → List ℕ
ids ms = map (λ (m : GroupMember). m.player_id) ms

abbrev pub row_ids : List Row → List ℕ
row_ids rows = map (λ (r : Row). r.player_id) rows

-- The order of the rows of a tab.
abbrev pub in_order : ℕ → List GroupMember → List GroupMember
in_order channel ms =
    if channel == 2 || channel == 4
    then keep (is_priority channel) ms ++ keep (λ m. not (is_priority channel m)) ms
    else ms

module _ (ops : FloatOps) where
  pub draw_loop_lem :
      (t : Moment ops) (channel : ℕ) (passes : GroupMember → Bool)
      (glyph : GroupMember → Option Bytes) (inputs : ℕ → RowInput ops) (ms : List GroupMember)
      (c : Client ops)
      → row_ids (draw_loop ops t channel passes glyph inputs ms c).0 ≡ ids (keep passes ms)
  unfolding draw_loop
  draw_loop_lem t channel passes glyph inputs [] c = refl
  draw_loop_lem t channel passes glyph inputs (m ∷ ms) c =
      let after = draw_member_row ops t channel (glyph m) (inputs m.player_id) m c in
      let rest = draw_loop_lem t channel passes glyph inputs ms (if passes m then after.1 else c) in
      let drawn =
        draw_loop ops t channel passes glyph inputs ms (if passes m then after.1 else c) in
      unfold draw_member_row in
      elim (passes m)
        as (λ b.
          row_ids (if b then after.0 ∷ drawn.0 else drawn.0)
          ≡ ids (if b then m ∷ keep passes ms else keep passes ms)) [
            | true ↦ ap (◌∷◌ m.player_id) rest
            | false ↦ rest
          ]

  draw_roster_lem :
      (t : Moment ops) (channel : ℕ) (inputs : ℕ → RowInput ops) (ms : List GroupMember)
      (c : Client ops)
      → row_ids (draw_roster ops t channel inputs ms c).0 ≡ ids (in_order channel ms)
  unfolding draw_roster
  draw_roster_lem t channel inputs ms c =
      let glyph = member_glyph channel c.voice.net.state.cc_leader_id in
      let first = draw_loop ops t channel (is_priority channel) glyph inputs ms c in
      let second =
        draw_loop ops t channel (λ m. not (is_priority channel m)) glyph inputs ms first.1 in
      elim (channel == 2 || channel == 4)
        as (λ b.
          row_ids (
            (if b
              then (first.0 ++ second.0, second.1)
              else draw_loop ops t channel (λ m. true) (λ m. none) inputs ms c).0)
          ≡ ids (
              if b
              then keep (is_priority channel) ms ++ keep (λ m. not (is_priority channel m)) ms
              else ms)) [
                | true ↦
                    map-append (λ (r : Row). r.player_id) first.0 second.0
                    ∙ (ap₂ ◌++◌ (draw_loop_lem t channel (is_priority channel) glyph inputs ms c) (
                          draw_loop_lem t channel (λ m. not (is_priority channel m)) glyph inputs ms
                            first.1)
                        ∙ sym (
                            map-append (λ (m : GroupMember). m.player_id)
                              (keep (is_priority channel) ms)
                              (keep (λ m. not (is_priority channel m)) ms)))
                | false ↦
                    draw_loop_lem t channel (λ m. true) (λ m. none) inputs ms c
                    ∙ ap ids (keep_all ms)
              ]

-- A tab by its channel: whom it shows first, and its roster, which are those of the party, the clan
-- (the leader and sub-leaders first), the alliance, and the command channel (those with the right to
-- speak first).
pub data IsTab (s : ClientState) : ℕ → (GroupMember → Bool) → List GroupMember → Type 0 where
  party : IsTab s 1 (λ m. false) s.party_members
  clan : IsTab s 2 (λ m. m.clan_role == 2 || m.clan_role == 1) s.clan_members
  ally : IsTab s 3 (λ m. false) s.ally_members
  command : IsTab s 4 (λ m. m.cc_can_speak) s.cc_members

-- Those whom a test picks, and then the others, both in the order of the list.
abbrev pub picked_first : (GroupMember → Bool) → List GroupMember → List GroupMember
picked_first first ms = keep first ms ++ keep (λ m. not (first m)) ms

picked_first_none : (ms : List GroupMember) → picked_first (λ m. false) ms ≡ ms
picked_first_none ms = ap₂ ◌++◌ (keep_none ms) (keep_all ms)

in_order-IsTab :
    (s : ClientState) (channel : ℕ) (first : GroupMember → Bool) (roster ms : List GroupMember)
    → IsTab s channel first roster
    → in_order channel ms ≡ picked_first first ms
unfolding is_priority
in_order-IsTab s _ _ _ ms party = sym (picked_first_none ms)
in_order-IsTab s _ _ _ ms clan = refl
in_order-IsTab s _ _ _ ms ally = sym (picked_first_none ms)
in_order-IsTab s _ _ _ ms command = refl

get_group_roster-IsTab :
    (n m : Net) (channel : ℕ) (first : GroupMember → Bool) (roster : List GroupMember)
    → m.state ≡ n.state
    → IsTab n.state channel first roster
    → get_group_roster channel m ≡ take 64 roster
unfolding get_group_roster
get_group_roster-IsTab n m _ _ _ e party = ap (λ (s : ClientState). take 64 s.party_members) e
get_group_roster-IsTab n m _ _ _ e clan = ap (λ (s : ClientState). take 64 s.clan_members) e
get_group_roster-IsTab n m _ _ _ e ally = ap (λ (s : ClientState). take 64 s.ally_members) e
get_group_roster-IsTab n m _ _ _ e command = ap (λ (s : ClientState). take 64 s.cc_members) e

module _ (ops : FloatOps) where
  -- The settings above the list leave the rosters.
  set_group_state :
      (t : Moment ops) (channel : ℕ) (input : GroupInput ops) (u : Ui ops)
      → let set : Ui ops = record u { client = set_group ops t channel input u.client } in
        (if leb 1 channel && leb channel 3
          then rebind ops channel input.rebind set
          else set).client.voice.net.state
        ≡ u.client.voice.net.state
  set_group_state t channel input u =
      let n = u.client.voice.net in
      let set : Ui ops = record u { client = set_group ops t channel input u.client } in
      let said =
        set_group-Talk ops {quiet = false} {n = n} t channel input u.client
          (λ b e. refl, λ x e. refl) silent in
      (Talk-state (
        if_intro (λ (w : Ui ops). Talk false n (net_of ops w.client))
          (leb 1 channel && leb channel 3) (rebind-Talk ops channel input.rebind set said) said)).0

  -- The tab of a channel shows each of the first 64 members of its roster once, whatever the player
  -- does in it: in the clan first the leader and the sub-leaders, in the command channel first those
  -- with the right to speak, in the order of the roster, and then the others in that order; in the
  -- other channels all of them in that order.
  pub draw_group_tab-perm :
      (t : Moment ops) (st : OverlayState ops) (channel : ℕ) (first : GroupMember → Bool)
      (roster : List GroupMember) (input : GroupInput ops) (u : Ui ops)
      → IsTab u.client.voice.net.state channel first roster
      → let rows = (draw_group_tab ops t st channel input u).0.rows in
        (row_ids rows ≡ ids (picked_first first (take 64 roster)))
        × Perm (row_ids rows) (ids (take 64 roster))
  unfolding draw_group_tab
  draw_group_tab-perm t st channel first roster input u tab =
      let set : Ui ops = record u { client = set_group ops t channel input u.client } in
      let bound : Ui ops =
        if leb 1 channel && leb channel 3 then rebind ops channel input.rebind set else set in
      let n = bound.client.voice.net in
      let shown =
        get_group_roster-IsTab u.client.voice.net n channel first roster
          (set_group_state t channel input u) tab in
      let drawn =
        draw_roster_lem ops t channel input.row (get_group_roster channel n) bound.client
        ∙ ap ids (
            ap (in_order channel) shown
            ∙ in_order-IsTab _ channel first roster (take 64 roster) tab) in
      (
        drawn,
        subst (λ l. Perm l (ids (take 64 roster))) (sym drawn)
            (map-perm (λ (m : GroupMember). m.player_id) (picked_first first (take 64 roster))
              (take 64 roster) (keep-perm first (take 64 roster))),
      )
