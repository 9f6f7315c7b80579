-- ===== src/Audio/Ring.antt =====
-- `MonoRing` of client/voice/audio_io.cpp: the ring of mono samples behind every playback source.
-- Both users hold `sources_mu`, so a push and a pop never overlap, and each is one step here.
-- `buf` is the fixed array as a function of its index: every index that the code forms is a
-- remainder by `kRingSamples`. Samples are only moved.
pub mod Fifo
mod Tests
use l2voice_chat.Base.{
  ℕ, zero, suc, ◌+◌, ◌-◌, ◌%◌, ◌^◌, List, [], ◌∷◌, length, ◌==◌, ltb, if◌then◌else◌,
}
use l2voice_chat.Base.Int.{ℤ}

-- `kFrameSamples`, 20 ms at 48 kHz.
abbrev pub frame_samples : ℕ
frame_samples = 960

-- `kRingSamples = kFrameSamples * 8`
abbrev pub ring_samples : ℕ
ring_samples = 7680

-- `wr` and `rd` are `uint32_t` counters that are never reduced by the size of the ring.
pub record MonoRing : Type 0 where
  pub buf : ℕ → ℤ
  pub wr : ℕ
  pub rd : ℕ

-- The cell of counter `c`: the sum `wr + i` wraps at 2 ^ 32 before the remainder is taken.
unfoldable pub slot : ℕ → ℕ
slot c = c % 2 ^ 32 % ring_samples

-- `buf[i] = v`
abbrev pub store_at : (ℕ → ℤ) → ℕ → ℤ → ℕ → ℤ
store_at f i v j = if i == j then v else f j

unfoldable pub available : MonoRing → ℕ
available r = (r.wr + 2 ^ 32 - r.rd) % 2 ^ 32

-- The loop of `Push`, from counter `c` on.
unfoldable pub write_from : (ℕ → ℤ) → ℕ → List ℤ → ℕ → ℤ
write_from f c [] = f
write_from f c (x ∷ xs) = write_from (store_at f (slot c) x) (c + 1) xs

unfoldable pub push : MonoRing → List ℤ → MonoRing
push r src = record r { buf = write_from r.buf r.wr src; wr = (r.wr + length src) % 2 ^ 32 }

-- The loop of `Pop`, from counter `c` on.
unfoldable pub read_from : (ℕ → ℤ) → ℕ → ℕ → List ℤ
read_from f c zero = []
read_from f c (suc n) = f (slot c) ∷ read_from f (c + 1) n

-- `if (n > avail) n = avail;`
unfoldable pub pop_count : MonoRing → ℕ → ℕ
unfolding available
pop_count r n = if ltb (available r) n then available r else n

-- The samples that go to `dst` (their number is the value returned), and the ring after.
unfoldable pub pop : MonoRing → ℕ → List ℤ × MonoRing
unfolding pop_count
pop r n =
    let got = pop_count r n in (read_from r.buf r.rd got, record r { rd = (r.rd + got) % 2 ^ 32 })
