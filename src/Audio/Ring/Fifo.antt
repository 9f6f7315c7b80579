-- ===== src/Audio/Ring/Fifo.antt =====
-- The ring as a queue: while no more samples wait than its cells can tell apart, a push appends
-- and a pop takes from the front.
use l2voice_chat.Base.{
  ℕ, zero, suc, ◌+◌, ◌-◌, ◌%◌, ◌^◌, ◌≤◌, ◌<◌, List, [], ◌∷◌, ◌++◌, ◌≡◌, ◌≢◌, ◌⊎◌, refl, ap, ap₂,
  sym, ◌∙◌, arith, length, take, drop, ltb, if◌then◌else◌,
}
use l2voice_chat.Base.Int.{ℤ}
use l2voice_chat.Audio.Ring.{
  MonoRing, ring_samples, slot, store_at, available, write_from, push, read_from, pop_count, pop,
}

-- Both counters are `uint32_t` values.
pub record IsValid (r : MonoRing) : Type 0 where
  pub wr_word : r.wr < 2 ^ 32
  pub rd_word : r.rd < 2 ^ 32

-- The `n` counters from `c` on have cells of their own. 2 ^ 32 is no multiple of the ring's size,
-- so across the wrap of the counters only 4096 cells can be told apart.
abbrev pub Fits : ℕ → ℕ → Type 0
Fits c n = (n ≤ 4096) ⊎ ((n ≤ ring_samples) × (c % 2 ^ 32 + n ≤ 2 ^ 32))

-- The samples that wait, oldest first.
unfoldable pub contents : MonoRing → List ℤ
contents r = read_from r.buf r.rd (available r)

-- Two counters of such a run never share a cell.
slot-ne : (e n c d : ℕ) → Fits e n → e ≤ d → d < c → c < e + n → slot c ≢ slot d
unfolding slot
slot-ne e n c d f h k l = omega arith

slot-mod : (c k : ℕ) → slot (c % 2 ^ 32 + k) ≡ slot (c + k)
unfolding slot
slot-mod c k = omega arith

read_from-eq : (f : ℕ → ℤ) {c d m n : ℕ} → c ≡ d → m ≡ n → read_from f c m ≡ read_from f d n
read_from-eq f p q = cc

read_from-add :
    (m : ℕ) (f : ℕ → ℤ) (c n : ℕ) → read_from f c (m + n) ≡ read_from f c m ++ read_from f (c + m) n
unfolding read_from
read_from-add zero f c n = read_from-eq f (omega arith) (omega arith)
read_from-add (suc m) f c n =
    read_from-eq f {c = c} {n = suc (m + n)} refl (omega arith)
    ∙ ap (◌∷◌ (f (slot c))) (
        read_from-add m f (c + 1) n
        ∙ ap (λ t. read_from f (c + 1) m ++ t) (read_from-eq f (omega arith) refl))

read_from-mod :
    (n : ℕ) (f : ℕ → ℤ) (c k : ℕ) → read_from f (c % 2 ^ 32 + k) n ≡ read_from f (c + k) n
unfolding read_from
read_from-mod zero f c k = refl
read_from-mod (suc n) f c k =
    ap₂ (λ s t. f s ∷ t) (slot-mod c k)
      (read_from-eq f (omega arith) refl
        ∙ read_from-mod n f c (k + 1)
        ∙ read_from-eq f (omega arith) refl)

-- In a run of counters with cells of their own, writes from `c` on leave the cell of an earlier `d`.
module _ (e n : ℕ) (fit : Fits e n) where
  write_from-before :
      (xs : List ℤ) (f : ℕ → ℤ) (c d : ℕ)
      → e ≤ d
      → d < c
      → c + length xs ≤ e + n
      → write_from f c xs (slot d) ≡ f (slot d)
  unfolding write_from
  write_from-before [] f c d h k l = refl
  write_from-before (x ∷ xs) f c d h k l =
      write_from-before xs (store_at f (slot c) x) (c + 1) d h (omega arith) (omega arith)
      ∙ ground (arith, slot-ne e n c d fit h k (omega arith))

  read_from-before :
      (m : ℕ) (f : ℕ → ℤ) (c d : ℕ) (xs : List ℤ)
      → e ≤ d
      → d + m ≤ c
      → c + length xs ≤ e + n
      → read_from (write_from f c xs) d m ≡ read_from f d m
  unfolding read_from
  read_from-before zero f c d xs h k l = refl
  read_from-before (suc m) f c d xs h k l =
      ap₂ ◌∷◌ (write_from-before xs f c d h (omega arith) l)
        (read_from-before m f c (d + 1) xs (omega arith) (omega arith) l)

  read_from-written :
      (xs : List ℤ) (f : ℕ → ℤ) (c : ℕ)
      → e ≤ c
      → c + length xs ≤ e + n
      → read_from (write_from f c xs) c (length xs) ≡ xs
  unfolding read_from write_from
  read_from-written [] f c h l = refl
  read_from-written (x ∷ xs) f c h l =
      ap₂ ◌∷◌
        (write_from-before xs (store_at f (slot c) x) (c + 1) c h (omega arith) (omega arith)
          ∙ ground arith)
        (read_from-written xs (store_at f (slot c) x) (c + 1) (omega arith) (omega arith))

write_from-mod :
    (xs : List ℤ) (f : ℕ → ℤ) (c d : ℕ)
    → c % 2 ^ 32 ≡ d % 2 ^ 32
    → write_from f c xs ≡ write_from f d xs
unfolding write_from slot
write_from-mod [] f c d h = refl
write_from-mod (x ∷ xs) f c d h =
    rw h
      (write_from-mod xs (store_at f (d % 2 ^ 32 % ring_samples) x) (c + 1) (d + 1) (omega arith))

pub available-push :
    (r : MonoRing) (src : List ℤ)
    → IsValid r
    → available r + length src < 2 ^ 32
    → available (push r src) ≡ available r + length src
unfolding available push
available-push r src v h = omega arith

pub push-IsValid : (r : MonoRing) (src : List ℤ) → IsValid r → IsValid (push r src)
unfolding push
push-IsValid r src v = record { wr_word = omega arith; rd_word = v.rd_word }

pub pop-IsValid : (r : MonoRing) (n : ℕ) → IsValid r → IsValid (pop r n).1
unfolding pop
pop-IsValid r n v = record { wr_word = v.wr_word; rd_word = omega arith }

take-read_from :
    (n a : ℕ) (f : ℕ → ℤ) (c : ℕ)
    → take n (read_from f c a) ≡ read_from f c (if ltb a n then a else n)
unfolding read_from
take-read_from zero zero f c = refl
take-read_from zero (suc a) f c = ground arith
take-read_from (suc n) zero f c = ground arith
take-read_from (suc n) (suc a) f c = ground (arith, take-read_from n a f (c + 1))

drop-read_from :
    (n a : ℕ) (f : ℕ → ℤ) (c : ℕ)
    → drop n (read_from f c a) ≡ read_from f (c + (if ltb a n then a else n)) (a - n)
unfolding read_from
drop-read_from zero a f c = read_from-eq f (ground arith) (omega arith)
drop-read_from (suc n) zero f c = read_from-eq f {c = c} {m = 0} (ground arith) (omega arith)
drop-read_from (suc n) (suc a) f c =
    drop-read_from n a f (c + 1) ∙ read_from-eq f (ground arith) (omega arith)

pub available-pop :
    (r : MonoRing) (n : ℕ) → IsValid r → available (pop r n).1 ≡ available r - pop_count r n
unfolding pop available
available-pop r n v = ground arith

-- `Push` appends its samples to those that wait, in order, if all of them have cells of their own.
pub contents-push :
    (r : MonoRing) (src : List ℤ)
    → IsValid r
    → Fits r.rd (available r + length src)
    → contents (push r src) ≡ contents r ++ src
unfolding contents push
contents-push r src v fit =
    let a = available r in
    let written = write_from r.buf (r.rd + a) src in
    ap₂ (λ f n. read_from f r.rd n)
      (write_from-mod src r.buf r.wr (r.rd + a) (unfold available in omega arith))
      (available-push r src v (omega arith))
    ∙ read_from-add a written r.rd (length src)
    ∙ ap₂ ◌++◌
        (read_from-before r.rd (a + length src) fit a r.buf (r.rd + a) r.rd src (omega arith)
          (omega arith) (omega arith))
        (read_from-written r.rd (a + length src) fit src r.buf (r.rd + a) (omega arith)
          (omega arith))

-- `Pop` returns as many samples as asked for or as wait, the oldest in order, and leaves the rest.
pub pop-contents :
    (r : MonoRing) (n : ℕ)
    → IsValid r
    → ((pop r n).0 ≡ take n (contents r)) × (contents (pop r n).1 ≡ drop n (contents r))
unfolding contents pop
pop-contents r n v = (
  sym (take-read_from n (available r) r.buf r.rd),
  read_from-eq r.buf {d = (r.rd + pop_count r n) % 2 ^ 32 + 0} (omega arith)
        (available-pop r n v ∙ unfold pop_count in ground arith)
      ∙ read_from-mod (available r - n) r.buf (r.rd + pop_count r n) 0
      ∙ read_from-eq r.buf (unfold pop_count in ground arith) refl
      ∙ sym (drop-read_from n (available r) r.buf r.rd),
)
