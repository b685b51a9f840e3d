-- ===== src/Base/Double/Rounding.antt =====
-- What rounding a fraction to a whole number does to it.
use native.Mathlib.Nat.{div-add-mod', mod-lt, mul-le-mul_right}
use cross_chain_mid_ware.Base.{
  ℕ, ◌+◌, ◌*◌, ◌/◌, ◌%◌, ◌≤◌, ◌<◌, ◌≡◌, ◌⊎◌, refl, ltb, Bool-cases, inl, inr, arith,
}
use cross_chain_mid_ware.Base.Double.{round_even}

pub lt_of_mul-lt : (x y b : ℕ) → x * b < y * b → x < y
lt_of_mul-lt x y b h = elim (Bool-cases (ltb x y)) [
  | inl e ↦ ground (arith, e)
  | inr e ↦ let le : y ≤ x = ground (arith, e) in absurd (omega (arith, h, mul-le-mul_right b le))
]

even-cases : (q : ℕ) → (q + q % 2 ≡ q) ⊎ (q + q % 2 ≡ q + 1)
even-cases q = ground arith

-- Down where less than half is cut off, up where more is, and one of the two at a half.
round_even-cases :
    (a b : ℕ)
    → 0 < b
    → (q : ℕ) × (r : ℕ) × (q * b + r ≡ a)
      × (r < b)
      × (((round_even a b ≡ q) × (2 * r ≤ b)) ⊎ ((round_even a b ≡ q + 1) × (b ≤ 2 * r)))
unfolding round_even
round_even-cases a b h = (
  a / b,
  a % b,
  div-add-mod' a b,
  mod-lt a h,
  elim (Bool-cases (ltb (2 * (a % b)) b)) [
    | inl e ↦ rw e (inl (refl, ground (arith, e)))
    | inr e ↦ elim (Bool-cases (ltb b (2 * (a % b)))) [
      | inl k ↦ rw (e, k) (inr (refl, ground (arith, k)))
      | inr k ↦ elim (even-cases (a / b)) [
        | inl v ↦ rw (e, k) (inl (v, ground (arith, k)))
        | inr v ↦ rw (e, k) (inr (v, ground (arith, e)))
      ]
    ]
  ],
)

pub round_even-near :
    (a b : ℕ)
    → 0 < b
    → (2 * (round_even a b * b) ≤ 2 * a + b) × (2 * a ≤ 2 * (round_even a b * b) + b)
round_even-near a b h =
    let (q, r, e, l, c) = round_even-cases a b h in
    elim c [
      | inl (v, s) ↦ rw v (omega (arith, e, s), omega (arith, e, s))
      | inr (v, s) ↦ rw v (omega (arith, e, s), omega (arith, e, s))
    ]

-- Nothing is rounded over a whole number.
pub round_even-ge : (a b c : ℕ) → 0 < b → c * b ≤ a → c ≤ round_even a b
round_even-ge a b c h k =
    let (q, r, e, l, s) = round_even-cases a b h in
    let lt : c < q + 1 = lt_of_mul-lt c (q + 1) b (omega (arith, e, l)) in
    elim s [ inl (v, t) ↦ rw v (omega (arith, lt)) | inr (v, t) ↦ rw v (omega (arith, lt)) ]

pub round_even-le : (a b c : ℕ) → 0 < b → a ≤ c * b → round_even a b ≤ c
round_even-le a b c h k =
    let (q, r, e, l, s) = round_even-cases a b h in
    elim s [
      | inl (v, t) ↦
          let lt : q < c + 1 = lt_of_mul-lt q (c + 1) b (omega (arith, e)) in
          rw v (omega (arith, lt))
      | inr (v, t) ↦
          let lt : q < c = lt_of_mul-lt q c b (omega (arith, e, t)) in rw v (omega (arith, lt))
    ]

-- Less than half away, there is one whole number only.
pub round_even_unique :
    (a b v : ℕ) → 0 < b → 2 * a < 2 * (v * b) + b → 2 * (v * b) < 2 * a + b → round_even a b ≡ v
round_even_unique a b v p h k =
    let (q, r, e, l, s) = round_even-cases a b p in
    elim s [
      | inl (w, t) ↦
          let low : q < v + 1 = lt_of_mul-lt q (v + 1) b (omega (arith, e)) in
          let high : v < q + 1 = lt_of_mul-lt v (q + 1) b (omega (arith, e, t)) in
          rw w (omega (arith, low, high))
      | inr (w, t) ↦
          let low : q < v = lt_of_mul-lt q v b (omega (arith, e, t)) in
          let high : v < q + 2 = lt_of_mul-lt v (q + 2) b (omega (arith, e, l)) in
          rw w (omega (arith, low, high))
    ]
