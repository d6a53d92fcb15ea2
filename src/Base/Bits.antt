-- ===== src/Base/Bits.antt =====
-- The bitwise `|` of numbers whose bits do not overlap is their sum.
use mathlib.Core.Path.{◌≡◌, refl, ap, ◌∙◌}
use native.Mathlib.Nat.{pow-suc}
use native.Mathlib.Omega.{arith}
use Prim.Native.Nat.{
  ℕ, zero, suc, ◌+◌, ◌*◌, ◌/◌, ◌^◌, ◌≤◌, ◌<◌, max, digits, bit_or, bit_or-bitwise,
}

-- The recursion over the digits that `bit_or` stands for, with as much fuel as one likes.
abbrev or_within : ℕ → ℕ → ℕ → ℕ
or_within fuel = digits (λ y. y) max fuel

or_within_nothing : (high fuel : ℕ) → high ≤ fuel → or_within fuel high 0 ≡ high
or_within_nothing zero zero enough = refl
or_within_nothing zero (suc fuel) enough = refl
or_within_nothing (suc high) zero enough = absurd (omega arith)
or_within_nothing (suc high) (suc fuel) enough =
    let half = suc high / 2 in omega (arith, or_within_nothing half fuel (omega arith))

or_within_apart :
    (width top low high fuel : ℕ)
    → low < 2 ^ width
    → high ≡ top * 2 ^ width
    → high ≤ fuel
    → or_within fuel high low ≡ high + low
or_within_apart zero top low high fuel small shifted enough =
    let none_left : low ≡ 0 = omega arith in
    rw none_left (or_within_nothing high fuel enough ∙ omega arith)
or_within_apart (suc width) top low zero zero small shifted enough = omega arith
or_within_apart (suc width) top low zero (suc fuel) small shifted enough = omega arith
or_within_apart (suc width) top low (suc high) zero small shifted enough = absurd (omega arith)
or_within_apart (suc width) top low (suc high) (suc fuel) small shifted enough =
    let doubled = pow-suc 2 width in
    let twice = ap (λ (t : ℕ). top * t) doubled in
    omega (
      arith,
      doubled,
      twice,
      or_within_apart width top (low / 2) (suc high / 2) fuel (omega (arith, doubled))
          (omega (arith, shifted, twice)) (omega arith),
    )

-- (top << width) | low, where `low` has at most `width` bits.
pub bit_or_apart :
    (width top low : ℕ) → low < 2 ^ width → bit_or (top * 2 ^ width) low ≡ top * 2 ^ width + low
bit_or_apart width top low small =
    bit_or-bitwise (top * 2 ^ width) low
    ∙ or_within_apart width top low (top * 2 ^ width) (top * 2 ^ width) small refl (omega arith)

pub bit_or_zero : (low : ℕ) → bit_or 0 low ≡ low
bit_or_zero low = bit_or-bitwise 0 low
