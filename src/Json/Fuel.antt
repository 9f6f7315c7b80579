-- ===== src/Json/Fuel.antt =====
-- The loop over a roster ends.
use l2voice_chat.Base.{
  ℕ, zero, suc, ◌+◌, ◌-◌, ◌≤◌, ◌<◌, List, [], ◌∷◌, Option, none, some, length, ◌==◌, ◌&&◌,
  if◌then◌else◌, if_intro, Bytes, ◌≡◌, refl, ap, ◌∙◌, arith,
}
use l2voice_chat.Json.{
  GroupMember, skip_to_brace, close_brace, next_object, read_member, parse_member_object,
  parse_members, parse_member_array, extract_array_body,
}

-- What a search for an object leaves is shorter than `n`.
abbrev pub Shorter : ℕ → Option (Bytes × Bytes) → Type 0
Shorter n none = Unit
Shorter n (some (obj, rest)) = length rest < n

Shorter-some :
    (n : ℕ) (o : Option (Bytes × Bytes)) (c : ℕ)
    → Shorter n o
    → Shorter
        (suc n)
        (elim o as (λ _. Option (Bytes × Bytes)) [ none ↦ none | some (x, r) ↦ some (c ∷ x, r) ])
Shorter-some n none c h = tt
Shorter-some n (some (x, r)) c h = omega (arith, h)

close_brace-Shorter : (depth : ℕ) (s : Bytes) → Shorter (length s) (close_brace depth s)
unfolding close_brace
close_brace-Shorter depth [] = tt
close_brace-Shorter depth (c ∷ s) =
    let deeper = if c == b'{' then depth + 1 else if c == b'}' then depth - 1 else depth in
    if_intro (Shorter (suc (length s))) (c == b'}' && deeper == 0) {x = some (c ∷ [], s)}
      (omega arith)
      (Shorter-some (length s) (close_brace deeper s) c (close_brace-Shorter deeper s))

length-skip_to_brace : (s : Bytes) → length (skip_to_brace s) ≤ length s
unfolding skip_to_brace
length-skip_to_brace [] = omega arith
length-skip_to_brace (c ∷ s) = ground (arith, length-skip_to_brace s)

Shorter-le : (n m : ℕ) (o : Option (Bytes × Bytes)) → n ≤ m → Shorter n o → Shorter m o
Shorter-le n m none le h = tt
Shorter-le n m (some (x, r)) le h = omega (arith, h, le)

next_object-Shorter : (body : Bytes) → Shorter (length body) (next_object body)
unfolding next_object
next_object-Shorter body =
    Shorter-le _ _ (close_brace 0 (skip_to_brace body)) (length-skip_to_brace body)
      (close_brace-Shorter 0 (skip_to_brace body))

-- A round of the loop, for what the rest of it gives.
abbrev round_with : (Bytes → List GroupMember) → Option (Bytes × Bytes) → List GroupMember
round_with more o =
    elim (elim o as (λ _. Option (GroupMember × Bytes)) [
      | none ↦ none
      | some (obj, rest) ↦ some (read_member obj, rest)
    ])
      as (λ _. List GroupMember) [
        | none ↦ []
        | some (m, rest) ↦ let ms = more rest in if m.player_id == 0 then ms else m ∷ ms
      ]

round_with_same :
    (f g : Bytes → List GroupMember) (n : ℕ) (o : Option (Bytes × Bytes))
    → Shorter n o
    → ((rest : Bytes) → length rest < n → f rest ≡ g rest)
    → round_with f o ≡ round_with g o
round_with_same f g n none h k = refl
round_with_same f g n (some (obj, rest)) h k =
    ap (λ ms. if (read_member obj).player_id == 0 then ms else read_member obj ∷ ms) (k rest h)

parse_members_same :
    (f g : ℕ) (body : Bytes)
    → length body ≤ f
    → length body ≤ g
    → parse_members f body ≡ parse_members g body
unfolding parse_members parse_member_object
parse_members_same zero zero body h k = refl
parse_members_same (suc f) (suc g) body h k =
    round_with_same (parse_members f) (parse_members g) (length body) (next_object body)
      (next_object-Shorter body)
      (λ rest less. parse_members_same f g rest (omega (arith, less, h)) (omega (arith, less, k)))
parse_members_same zero (suc g) [] h k = unfold next_object in refl
parse_members_same zero (suc g) (c ∷ body) h k = ground (arith, h)
parse_members_same (suc f) zero [] h k = unfold next_object in refl
parse_members_same (suc f) zero (c ∷ body) h k = ground (arith, k)

-- The loop over a roster ends by itself: its fuel, the length of the text, is never used up, since
-- with any more of it the loop gives the same members.
pub parse_member_array_ends :
    (s key body : Bytes) (fuel : ℕ)
    → extract_array_body s key ≡ some body
    → length body ≤ fuel
    → parse_member_array s key ≡ parse_members fuel body
unfolding parse_member_array
parse_member_array_ends s key body fuel found enough =
    ap (λ o. elim o as (λ _. List GroupMember) [ none ↦ [] | some b ↦ parse_members (length b) b ])
      found
    ∙ parse_members_same (length body) fuel body (omega arith) enough
