-- ===== src/Base/Int.antt =====
-- C's `int` as an integer over the native numbers, under the library's names; `negsuc n` is -(n + 1).
use system_related_projects.Base.Tests.{◌==◌}
use Prim.Native.Nat.{ℕ}
use mathlib.Core.Bool.{Bool, false}

pub data ℤ : Type 0 where
  pos : ℕ → ℤ
  negsuc : ℕ → ℤ

-- SUCCESS and FAIL of MimicOS/include/sys/types.h
abbrev pub success : ℤ
success = pos 0

abbrev pub fail : ℤ
fail = negsuc 0

-- Comparison with FAIL.
abbrev pub is_fail : ℤ → Bool
is_fail (pos n) = false
is_fail (negsuc n) = n == 0
