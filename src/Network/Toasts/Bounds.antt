-- ===== src/Network/Toasts/Bounds.antt =====
-- The queue stays short, and shows what it should.
use l2voice_chat.Base.{
  ℕ, suc, ◌-◌, ◌≤◌, List, [], ◌∷◌, ◌++◌, ◌≡◌, refl, ap, ◌∙◌, arith, leb, Bytes, length, drop, keep,
  length-append, Bool-cases, inl, inr,
}
use l2voice_chat.Network.State.{Net, Toast}
use l2voice_chat.Network.Toasts.{is_live, cap_toasts, new_toast, add_toast}

-- The loop keeps the last four toasts, or all where there are fewer.
cap_toasts-drop : (ts : List Toast) → cap_toasts ts ≡ drop (length ts - 4) ts
unfolding cap_toasts
cap_toasts-drop [] = refl
cap_toasts-drop (t ∷ ts) = elim (Bool-cases (leb 5 (length (t ∷ ts)))) [
  | inl long ↦
      let e : suc (length ts - 4) ≡ suc (length ts) - 4 = ground arith in
      rw long (cap_toasts-drop ts ∙ ap (λ k. drop k (t ∷ ts)) e)
  | inr short ↦
      let e : 0 ≡ suc (length ts) - 4 = ground arith in rw short (ap (λ k. drop k (t ∷ ts)) e)
]

length-cap_toasts : (ts : List Toast) → length (cap_toasts ts) ≤ 4
unfolding cap_toasts
length-cap_toasts [] = omega arith
length-cap_toasts (t ∷ ts) = ground (arith, length-cap_toasts ts)

-- After `AddToast` the queue holds the last four toasts not yet expired, in their order, and the
-- new one behind them: so five toasts at most, whatever it held before.
pub add_toast_lem :
    (now : ℕ) (text : Bytes) (severity ttl : ℕ) (n : Net)
    → let live = keep (is_live now) n.toasts in
      let n' = add_toast now text severity ttl n in
      (n'.toasts ≡ drop (length live - 4) live ++ (new_toast now text severity ttl n ∷ []))
      × (length n'.toasts ≤ 5)
unfolding add_toast
add_toast_lem now text severity ttl n =
    let live = keep (is_live now) n.toasts in
    (
      ap (λ ts. ts ++ (new_toast now text severity ttl n ∷ [])) (cap_toasts-drop live),
      omega (
        arith,
        length-append (cap_toasts live) (new_toast now text severity ttl n ∷ []),
        length-cap_toasts live,
      ),
    )
