-- ===== src/Prelude/Int.antt =====
-- Go's `int` and durations, as far as the code looks into them: a sign and a magnitude, unbounded.
use Prim.Native.Nat.{ℕ, ◌+◌, ◌-◌, ◌*◌}

-- `negsuc n` is -(n + 1).
pub data ℤ : Type 0 where
  pos : ℕ → ℤ
  negsuc : ℕ → ℤ

-- max(a, 0), so that `a > n` is `n < pos_part a` for a natural number n
abbrev pub pos_part : ℤ → ℕ
pos_part (pos n) = n
pos_part (negsuc n) = 0

-- a * k for a natural number k that is not 0, as `n * time.Second` is
abbrev pub scale : ℕ → ℤ → ℤ
scale k (pos n) = pos (n * k)
scale k (negsuc n) = negsuc ((n + 1) * k - 1)
