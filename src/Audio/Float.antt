-- ===== src/Audio/Float.antt =====
-- The single-precision arithmetic that the client calls. Its type and operations are parameters:
-- the development uses none of its laws but those that a theorem names.
use l2voice_chat.Base.{Bool}
use l2voice_chat.Base.Int.{ℤ}

pub record FloatOps : Type 1 where
  pub F : Type 0
  pub add : F → F → F
  pub sub : F → F → F
  pub mul : F → F → F
  pub div : F → F → F
  -- `a < b`
  pub less : F → F → Bool
  pub abs : F → F
  pub cos : F → F
  pub sin : F → F
  -- The conversion from an integer, and the conversion to one (which drops the fraction).
  pub of_int : ℤ → F
  pub to_int : F → ℤ
  -- The literals of the source that are no integers: `0.785398163f` and `1e-4f`.
  pub quarter_pi : F
  pub epsilon : F
