-- ===== src/Base/Ranges.antt =====
-- Ranges of heights, and sums that are held to the range of an i32.
use merge_mining_monitor.Base.{
  List, [], ◌∷◌, ℕ, zero, suc, ◌-◌, ◌≤◌, ◌<◌, ◌^◌, arith, ltb, if◌then◌else◌,
}
use merge_mining_monitor.Base.Int.{ℤ, pos, negsuc, pos_part, neg_part, ◌+ℤ◌, ◌-ℤ◌, ◌≤ℤ◌, leb_ℤ}
use merge_mining_monitor.Base.Words.{IsI32}

abbrev pub min_ℤ : ℤ → ℤ → ℤ
min_ℤ a b = if leb_ℤ a b then a else b

-- an exact sum or difference, held to the range of an i32
unfoldable pub saturate_i32 : ℤ → ℤ
saturate_i32 (pos n) = if ltb n (2 ^ 31) then pos n else pos (2 ^ 31 - 1)
saturate_i32 (negsuc n) = if ltb n (2 ^ 31) then negsuc n else negsuc (2 ^ 31 - 1)

-- `count` heights from `height` up
unfoldable pub heights_from : ℕ → ℤ → List ℤ
heights_from zero height = []
heights_from (suc count) height = height ∷ heights_from count (height +ℤ pos 1)

-- the heights of `start..=end`
unfoldable pub heights_between : ℤ → ℤ → List ℤ
unfolding heights_from
heights_between start end = heights_from (pos_part (end +ℤ pos 1 -ℤ start)) start

-- the range of an i32, on the parts of an integer
pub IsI32-parts : (z : ℤ) → IsI32 z → (pos_part z < 2 ^ 31) × (neg_part z ≤ 2 ^ 31)
IsI32-parts (pos n) h = (h, omega arith)
IsI32-parts (negsuc n) h = (omega arith, omega arith)

pub saturate_i32-IsI32 : (z : ℤ) → IsI32 (saturate_i32 z)
unfolding saturate_i32
saturate_i32-IsI32 (pos n) = ground arith
saturate_i32-IsI32 (negsuc n) = ground arith

-- held from above, a sum is at most what it was, and held from below at least
pub saturate_i32-le : (z : ℤ) → negsuc (2 ^ 31 - 1) ≤ℤ z → saturate_i32 z ≤ℤ z
unfolding saturate_i32
saturate_i32-le (pos n) h = ground arith
saturate_i32-le (negsuc n) h = ground arith

pub le-saturate_i32 : (c z : ℤ) → IsI32 c → c ≤ℤ z → c ≤ℤ saturate_i32 z
unfolding saturate_i32
le-saturate_i32 (pos m) (pos n) h k = ground arith
le-saturate_i32 (pos m) (negsuc n) h k = ground arith
le-saturate_i32 (negsuc m) (pos n) h k = ground arith
le-saturate_i32 (negsuc m) (negsuc n) h k = ground arith

pub saturate_i32_le_of : (z c : ℤ) → IsI32 c → z ≤ℤ c → saturate_i32 z ≤ℤ c
unfolding saturate_i32
saturate_i32_le_of (pos m) (pos n) h k = ground arith
saturate_i32_le_of (pos m) (negsuc n) h k = ground arith
saturate_i32_le_of (negsuc m) (pos n) h k = ground arith
saturate_i32_le_of (negsuc m) (negsuc n) h k = ground arith
