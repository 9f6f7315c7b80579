-- ===== src/Audio/Ring/Tests.antt =====
-- The ring at concrete states, one of them with counters that are about to wrap.
use l2voice_chat.Base.{◌-◌, ◌^◌, [], ◌∷◌, ◌++◌, ◌≡◌, refl, inl, arith, take, drop}
use l2voice_chat.Base.Int.{pos}
use l2voice_chat.Audio.Ring.{MonoRing, available, push, pop, slot, write_from, read_from}
use l2voice_chat.Audio.Ring.Fifo.{IsValid, contents, contents-push, pop-contents}

abbrev ring : MonoRing
ring = record { buf = λ i. pos i; wr = 5; rd = 3 }

-- One sample waits, and the next but one will be stored at counter 0.
abbrev wrapping : MonoRing
wrapping = record { buf = λ i. pos 1; wr = 2 ^ 32 - 1; rd = 2 ^ 32 - 2 }

ring-IsValid : IsValid ring
ring-IsValid = omega arith

wrapping-IsValid : IsValid wrapping
wrapping-IsValid = omega arith

contents-wrapping : contents (push wrapping (pos 7 ∷ pos 8 ∷ [])) ≡ pos 1 ∷ pos 7 ∷ pos 8 ∷ []
unfolding contents push write_from read_from available slot
contents-wrapping = refl

contents-push_example :
    contents (push wrapping (pos 7 ∷ pos 8 ∷ [])) ≡ contents wrapping ++ (pos 7 ∷ pos 8 ∷ [])
unfolding available
contents-push_example =
    contents-push wrapping (pos 7 ∷ pos 8 ∷ []) wrapping-IsValid (inl (omega arith))

pop-contents_example :
    ((pop ring 1).0 ≡ take 1 (contents ring)) × (contents (pop ring 1).1 ≡ drop 1 (contents ring))
pop-contents_example = pop-contents ring 1 ring-IsValid
