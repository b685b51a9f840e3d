-- ===== src/Base/Double/Laws.antt =====
-- How far the nearest double is away, and which fractions it stays above or below.
use native.Mathlib.Nat.{mul-le-mul_right, mul-one, pow-suc}
use cross_chain_mid_ware.Base.{
  ℕ, zero, suc, ◌+◌, ◌*◌, ◌^◌, ◌≤◌, ◌<◌, ◌≡◌, ◌⊎◌, refl, ap, ◌∙◌, true, false, ltb, inl, inr, arith,
}
use cross_chain_mid_ware.Base.Double.Rounding.{
  lt_of_mul-lt, round_even-near, round_even-ge, round_even-le, round_even_unique,
}
use cross_chain_mid_ware.Base.Double.{round_even, grow, shrink, nearest}

grow-doubled :
    (f n d p : ℕ) → n * p < 4503599627370496 * d → grow (suc f) n d p ≡ grow f n d (p * 2)
unfolding grow
grow-doubled f n d p h =
    let e : ltb (n * p) (4503599627370496 * d) ≡ true = ground (arith, h) in rw (grow, e) refl

grow-done : (f n d p : ℕ) → 4503599627370496 * d ≤ n * p → grow (suc f) n d p ≡ p
unfolding grow
grow-done f n d p h =
    let e : ltb (n * p) (4503599627370496 * d) ≡ false = ground (arith, h) in rw (grow, e) refl

lt-or-le : (a b : ℕ) → (a < b) ⊎ (b ≤ a)
lt-or-le a b = ground arith

twice : (p f : ℕ) → p * 2 ^ suc f ≡ p * 2 * 2 ^ f
twice p f = ap (λ x. p * x) (pow-suc 2 f) ∙ omega arith

-- Where the fuel is enough the fraction ends up with 53 digits.
grow-enough :
    (f n d p : ℕ) → 4503599627370496 * d ≤ n * (p * 2 ^ f) → 4503599627370496 * d ≤ n * grow f n d p
unfolding grow
grow-enough zero n d p h = omega (arith, h, ap (λ x. n * x) (mul-one p))
grow-enough (suc f) n d p h = elim (lt-or-le (n * p) (4503599627370496 * d)) [
  | inl l ↦ rw (grow-doubled f n d p l) (grow-enough f n d (p * 2) (rw (twice p f) at h))
  | inr l ↦ rw (grow-done f n d p l) l
]

grow-eighths : (f n d k : ℕ) → (j : ℕ) × (grow f n d (8 * k) ≡ 8 * j)
unfolding grow
grow-eighths zero n d k = (k, refl)
grow-eighths (suc f) n d k = elim (lt-or-le (n * (8 * k)) (4503599627370496 * d)) [
  | inl l ↦
      let (j, h) = grow-eighths f n d (k * 2) in
      let same : 8 * k * 2 ≡ 8 * (k * 2) = omega arith in
      (j, grow-doubled f n d (8 * k) l ∙ ap (grow f n d) same ∙ h)
  | inr l ↦ (k, grow-done f n d (8 * k) l)
]

pub grow-pos : (f n d p : ℕ) → 0 < p → 0 < grow f n d p
unfolding grow
grow-pos zero n d p h = h
grow-pos (suc f) n d p h = elim (lt-or-le (n * p) (4503599627370496 * d)) [
  | inl l ↦ rw (grow-doubled f n d p l) (grow-pos f n d (p * 2) (omega arith))
  | inr l ↦ rw (grow-done f n d p l) h
]

-- The unit of a fraction below 2 ^ 50 divides an eighth.
grow-small :
    (f n d : ℕ) → n < 1125899906842624 * d → (j : ℕ) × (grow (suc (suc (suc f))) n d 1 ≡ 8 * j)
grow-small f n d h =
    let (j, e) = grow-eighths f n d 1 in
    (
      j,
      grow-doubled (suc (suc f)) n d 1 (omega arith)
          ∙ grow-doubled (suc f) n d 2 (omega arith)
          ∙ grow-doubled f n d 4 (omega arith)
          ∙ e,
    )

shrink-small : (f n d : ℕ) → n < 9007199254740992 * d → shrink (suc f) n d 1 ≡ 1
unfolding shrink
shrink-small f n d h =
    let e : ltb n (9007199254740992 * d * 1) ≡ true = ground (arith, h) in rw (shrink, e) refl

-- A fraction below 2 ^ 53 is rounded to a whole number of units.
nearest-small :
    (n d : ℕ)
    → n < 9007199254740992 * d
    → nearest n d ≡ (round_even (n * grow 1074 n d 1) d, grow 1074 n d 1)
unfolding nearest
nearest-small n d h =
    let p = grow 1074 n d 1 in
    ap (λ q. (round_even (n * p) (d * q) * q, p)) (shrink-small 970 n d h)
    ∙ ap (λ m. (m, p)) (mul-one _ ∙ ap (round_even (n * p)) (mul-one d))

-- The nearest double stays above and below every eighth that the fraction does not pass.
pub nearest-ge :
    (n d c : ℕ)
    → 0 < d
    → n < 1125899906842624 * d
    → c * d ≤ 8 * n
    → c * (nearest n d).1 ≤ 8 * (nearest n d).0
nearest-ge n d c p b h =
    let (j, e) = grow-small 1071 n d b in
    let step : c * j * d ≤ n * (8 * j) = omega (arith, mul-le-mul_right j h) in
    let low = round_even-ge (n * (8 * j)) d (c * j) p step in
    rw (nearest-small n d (omega arith), e) (omega (arith, low))

pub nearest-le :
    (n d c : ℕ)
    → 0 < d
    → n < 1125899906842624 * d
    → 8 * n ≤ c * d
    → 8 * (nearest n d).0 ≤ c * (nearest n d).1
nearest-le n d c p b h =
    let (j, e) = grow-small 1071 n d b in
    let step : n * (8 * j) ≤ c * j * d = omega (arith, mul-le-mul_right j h) in
    let high = round_even-le (n * (8 * j)) d (c * j) p step in
    rw (nearest-small n d (omega arith), e) (omega (arith, high))

-- The same for whole numbers, up to 2 ^ 53.
pub nearest-ge_whole :
    (n d c : ℕ)
    → 0 < d
    → n < 9007199254740992 * d
    → c * d ≤ n
    → c * (nearest n d).1 ≤ (nearest n d).0
nearest-ge_whole n d c p b h =
    let j = grow 1074 n d 1 in
    let step : c * j * d ≤ n * j = omega (arith, mul-le-mul_right j h) in
    rw (nearest-small n d b) (round_even-ge (n * j) d (c * j) p step)

pub nearest-le_whole :
    (n d c : ℕ)
    → 0 < d
    → n < 9007199254740992 * d
    → n ≤ c * d
    → (nearest n d).0 ≤ c * (nearest n d).1
nearest-le_whole n d c p b h =
    let j = grow 1074 n d 1 in
    let step : n * j ≤ c * j * d = omega (arith, mul-le-mul_right j h) in
    rw (nearest-small n d b) (round_even-le (n * j) d (c * j) p step)

pub nearest-pos : (n d : ℕ) → n < 9007199254740992 * d → 0 < (nearest n d).1
nearest-pos n d b = rw (nearest-small n d b) (grow-pos 1074 n d 1 (omega arith))

-- A number of units below 2 ^ 52, in coins: the double is less than half a unit away.
pub nearest-near :
    (v : ℕ)
    → 0 < v
    → v < 4503599627370496
    → let a = nearest v 100000000 in
      (2 * (a.0 * 100000000) ≤ 2 * (v * a.1) + 100000000)
      × (2 * (v * a.1) ≤ 2 * (a.0 * 100000000) + 100000000)
      × (450359962737049600000000 ≤ v * a.1)
nearest-near v p b =
    let j = grow 1074 v 100000000 1 in
    let (low, high) = round_even-near (v * j) 100000000 (omega arith) in
    let big : 4503599627370496 * 100000000 ≤ 1 * (1 * 2 ^ 1074) = omega arith in
    let more : 1 * (1 * 2 ^ 1074) ≤ v * (1 * 2 ^ 1074) =
      mul-le-mul_right {m = 1} {n = v} (1 * 2 ^ 1074) (omega arith) in
    let enough = grow-enough 1074 v 100000000 1 (omega (arith, big, more)) in
    rw (nearest-small v 100000000 (omega arith)) (low, high, omega (arith, enough))

-- Back in units, it is less than half a unit away from them.
unique-of_near :
    (m p v : ℕ)
    → 0 < v
    → v < 4503599627370496
    → 2 * (m * 100000000) ≤ 2 * (v * p) + 100000000
    → 2 * (v * p) ≤ 2 * (m * 100000000) + 100000000
    → 450359962737049600000000 ≤ v * p
    → round_even (m * 100000000) p ≡ v
unique-of_near m p v pos h low high enough =
    let wide : 100000000 < p = lt_of_mul-lt 100000000 p v (omega arith) in
    round_even_unique (m * 100000000) p v (omega arith) (omega arith) (omega arith)

zero-units : (m p : ℕ) → 0 < p → 8 * m ≤ 0 * p → round_even (m * 100000000) p ≡ 0
zero-units m p pos h = round_even_unique (m * 100000000) p 0 pos (omega arith) (omega arith)

pub units-nearest :
    (v : ℕ)
    → v < 4503599627370496
    → round_even ((nearest v 100000000).0 * 100000000) (nearest v 100000000).1 ≡ v
units-nearest zero h =
    zero-units (nearest 0 100000000).0 (nearest 0 100000000).1
      (nearest-pos 0 100000000 (omega arith))
      (nearest-le 0 100000000 0 (omega arith) (omega arith) (omega arith))
units-nearest (suc w) h =
    let (low, high, enough) = nearest-near (suc w) (omega arith) h in
    unique-of_near (nearest (suc w) 100000000).0 (nearest (suc w) 100000000).1 (suc w) (omega arith)
      h low high enough
