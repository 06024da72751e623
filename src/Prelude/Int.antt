-- ===== src/Prelude/Int.antt =====
-- Signed integers over the native numbers: seat indices that may be -1, and amounts that a
-- caller may give as negative.
use Prim.Native.Nat.{ℕ, suc, ◌-◌}
use poker_telegram_bot.Prelude.Tests.{leb, if◌then◌else◌}

-- `negsuc n` is -(n + 1).
pub data ℤ : Type 0 where
  pos : ℕ → ℤ
  negsuc : ℕ → ℤ

abbrev pub pos_part : ℤ → ℕ
pos_part (pos n) = n
pos_part (negsuc n) = 0

abbrev pub neg_part : ℤ → ℕ
neg_part (pos n) = 0
neg_part (negsuc n) = suc n

-- a - b, as an integer.
abbrev pub sub_ℕ : ℕ → ℕ → ℤ
sub_ℕ a b = if leb b a then pos (a - b) else negsuc (b - a - 1)

-- The index that the source writes -1.
abbrev pub minus_one : ℤ
minus_one = negsuc 0
