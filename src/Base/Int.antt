-- ===== src/Base/Int.antt =====
-- The integers, for values of type `int` and `long`: `negsuc n` is -(n + 1).
use Prim.Native.Nat.{ℕ, ◌-◌}
use kernalite.Base.Tests.{leb, if◌then◌else◌}

pub data ℤ : Type 0 where
  pos : ℕ → ℤ
  negsuc : ℕ → ℤ

-- a - b
abbrev pub sub_ℕ : ℕ → ℕ → ℤ
sub_ℕ a b = if leb b a then pos (a - b) else negsuc (b - a - 1)
