-- ===== src/Prelude/Floats.antt =====
-- Python's `float`, which the model does not define: its values, and the operations and tests that
-- the code applies to them. No law is assumed here: a theorem that needs one names it.
use Prim.Native.Nat.{ℕ}
use mathlib.Core.Bool.{Bool}

pub record Floats : Type 1 where
  pub Float : Type 0
  pub ltb_float : Float → Float → Bool
  pub leb_float : Float → Float → Bool
  pub eq_float : Float → Float → Bool
  pub add_float : Float → Float → Float
  pub sub_float : Float → Float → Float
  pub mul_float : Float → Float → Float
  pub div_float : Float → Float → Float
  pub abs_float : Float → Float
  pub max_float : Float → Float → Float
  -- The float literals of the source, as a number of millionths of a millionth.
  pub literal : ℕ → Float
