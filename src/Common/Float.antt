-- ===== src/Common/Float.antt =====
-- `f64`: the arithmetic that the components use of it, as an interface. It is no code of the
-- repository, and no theorem uses a law of it beyond what it names as a hypothesis.
use Prim.Native.Nat.{ℕ}

pub record FloatOps (F : Type 0) : Type 0 where
  pub one : F
  pub add : F → F → F
  pub sub : F → F → F
  pub mul : F → F → F
  -- `(configured as f64 * factor).round() as i64`, with a negative result read as 0
  pub scale_round : ℕ → F → ℕ
