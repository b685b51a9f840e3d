-- ===== src/Base/Double.antt =====
-- Python's floats, as far as the program uses them: doubles that are not below 0, as fractions. A
-- double has 53 binary digits, at most 1074 of them behind the point; what is too large for one is
-- not looked at.
pub mod Rounding
pub mod Laws
use cross_chain_mid_ware.Base.{
  ℕ, zero, suc, ◌+◌, ◌*◌, ◌/◌, ◌%◌, ◌^◌, Bool, true, false, ltb, if◌then◌else◌,
}

-- a / b rounded to a whole number, a half to the even one.
unfoldable pub round_even : ℕ → ℕ → ℕ
round_even a b =
    let q = a / b in
    let r = a % b in if ltb (2 * r) b then q else if ltb b (2 * r) then q + 1 else q + q % 2

-- The unit of n / d is 1 / P: P is doubled until the fraction has 53 digits in front of the point.
unfoldable pub grow : ℕ → ℕ → ℕ → ℕ → ℕ
grow zero n d p = p
grow (suc f) n d p = elim (ltb (n * p) (4503599627370496 * d)) as (λ _. ℕ) [
  | true ↦ grow f n d (p * 2)
  | false ↦ p
]

-- Above 2 ^ 53 the unit is Q.
unfoldable pub shrink : ℕ → ℕ → ℕ → ℕ → ℕ
shrink zero n d q = q
shrink (suc f) n d q = elim (ltb n (9007199254740992 * d * q)) as (λ _. ℕ) [
  | true ↦ q
  | false ↦ shrink f n d (q * 2)
]

-- The double that is nearest to n / d, as a numerator and a denominator.
unfoldable pub nearest : ℕ → ℕ → ℕ × ℕ
nearest n d =
    let p = grow 1074 n d 1 in let q = shrink 971 n d 1 in (round_even (n * p) (d * q) * q, p)
