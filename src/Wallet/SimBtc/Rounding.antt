-- ===== src/Wallet/SimBtc/Rounding.antt =====
-- `floatToInt` (utils/sim_btc_utils.py and utils/usdt_utils.py) against exact numbers of units.
use native.Mathlib.Nat.{div-eq_of_lt-le, mul-le-mul_right}
use cross_chain_mid_ware.Base.{
  ℕ, zero, suc, ◌+◌, ◌*◌, ◌/◌, ◌≤◌, ◌<◌, ◌≡◌, refl, true, false, ltb, arith,
}
use cross_chain_mid_ware.Base.Double.{nearest}
use cross_chain_mid_ware.Base.Double.Laws.{
  nearest-near, nearest-ge, nearest-le, nearest-ge_whole, nearest-le_whole, nearest-pos,
}
use cross_chain_mid_ware.Base.Double.Rounding.{lt_of_mul-lt}
use cross_chain_mid_ware.Wallet.SimBtc.{in_units, float_to_int}

-- The fraction n / d is between a / k and b / k.
abbrev IsBetween : ℕ → ℕ → ℕ → ℕ × ℕ → Type 0
IsBetween k a b f = (0 < f.1) × (a * f.1 ≤ k * f.0) × (k * f.0 ≤ b * f.1)

below : (b d : ℕ) → 0 < d → b < 9007199254740992 → b * d < 9007199254740992 * d
below b d p h =
    let le : b + 1 ≤ 9007199254740992 = omega arith in omega (arith, mul-le-mul_right d le)

nearest-eighths :
    (a b n d : ℕ) → IsBetween 8 a b (n, d) → b < 9007199254740992 → IsBetween 8 a b (nearest n d)
nearest-eighths a b n d (p, l, h) s =
    let small = below b d p s in
    (
      nearest-pos n d (omega (arith, small)),
      nearest-ge n d a p (omega (arith, small)) l,
      nearest-le n d b p (omega (arith, small)) h,
    )

nearest-whole :
    (a b n d : ℕ) → IsBetween 1 a b (n, d) → b < 9007199254740992 → IsBetween 1 a b (nearest n d)
nearest-whole a b n d (p, l, h) s =
    let small = below b d p s in
    let low = nearest-ge_whole n d a p (omega (arith, small)) (omega arith) in
    let high = nearest-le_whole n d b p (omega (arith, small)) (omega arith) in
    (nearest-pos n d (omega (arith, small)), omega (arith, low), omega (arith, high))

-- `amount * 1e8` is within a quarter of the units.
coins-times :
    (m p v : ℕ)
    → 0 < v
    → v < 562949953421312
    → 2 * (m * 100000000) ≤ 2 * (v * p) + 100000000
    → 2 * (v * p) ≤ 2 * (m * 100000000) + 100000000
    → 450359962737049600000000 ≤ v * p
    → (0 < p)
      × (8 * (v * p) ≤ 8 * (m * 100000000) + 2 * p)
      × (8 * (m * 100000000) ≤ 8 * (v * p) + 2 * p)
coins-times m p v pos h low high enough =
    let wide : 800000000 < p = lt_of_mul-lt 800000000 p v (omega arith) in
    (omega arith, omega arith, omega arith)

in_units-near :
    (w : ℕ) → suc w < 562949953421312 → IsBetween 8 (8 * w + 6) (8 * w + 10) (in_units (suc w))
unfolding in_units
in_units-near w h =
    let (low, high, enough) = nearest-near (suc w) (omega arith) (omega arith) in
    let (p, l, u) =
      coins-times (nearest (suc w) 100000000).0 (nearest (suc w) 100000000).1 (suc w) (omega arith)
        h low high enough in
    nearest-eighths (8 * w + 6) (8 * w + 10) _ _ (p, omega (arith, l), omega (arith, u))
      (omega arith)

-- The three operations that follow.
times-ten :
    (w n d : ℕ)
    → w < 562949953421312
    → IsBetween 8 (8 * w + 6) (8 * w + 10) (n, d)
    → IsBetween 1 (10 * w + 7) (10 * w + 13) (nearest (n * 10) d)
times-ten w n d h (p, l, u) =
    nearest-whole (10 * w + 7) (10 * w + 13) (n * 10) d (p, omega arith, omega arith) (omega arith)

plus-five :
    (w n d : ℕ)
    → w < 562949953421312
    → IsBetween 1 (10 * w + 7) (10 * w + 13) (n, d)
    → IsBetween 1 (10 * w + 12) (10 * w + 18) (nearest (n + 5 * d) d)
plus-five w n d h (p, l, u) =
    nearest-whole (10 * w + 12) (10 * w + 18) (n + 5 * d) d (p, omega arith, omega arith)
      (omega arith)

over-ten :
    (w n d : ℕ)
    → w < 562949953421312
    → IsBetween 1 (10 * w + 12) (10 * w + 18) (n, d)
    → IsBetween 8 (8 * w + 8) (8 * w + 15) (nearest n (d * 10))
over-ten w n d h (p, l, u) =
    nearest-eighths (8 * w + 8) (8 * w + 15) n (d * 10) (omega arith, omega arith, omega arith)
      (omega arith)

whole-part : (w n d : ℕ) → IsBetween 8 (8 * w + 8) (8 * w + 15) (n, d) → n / d ≡ suc w
whole-part w n d (p, l, u) = div-eq_of_lt-le d (omega arith) (omega arith)

positive : (w n d : ℕ) → IsBetween 8 (8 * w + 6) (8 * w + 10) (n, d) → ltb 0 n ≡ true
positive w n d (p, l, u) = let lt : 0 < n = lt_of_mul-lt 0 n 8 (omega arith) in ground (arith, lt)

no_eighths : (n d : ℕ) → 8 * n ≤ 0 * d → ltb 0 n ≡ false
no_eighths n d h = let z : 8 * n ≤ 0 = omega (arith, h) in ground (arith, z)

in_units-zero : ltb 0 (in_units 0).0 ≡ false
unfolding in_units
in_units-zero =
    let coins = nearest 0 100000000 in
    let (p, l, u) =
      nearest-eighths 0 0 0 100000000 (omega arith, omega arith, omega arith) (omega arith) in
    let (q, m, v) =
      nearest-eighths 0 0 (coins.0 * 100000000) coins.1 (p, omega arith, omega (arith, u))
        (omega arith) in
    no_eighths _ _ v

-- Below 2 ^ 49 the roundings add up to less than a unit.
pub float_to_int-in_units : (v : ℕ) → v < 562949953421312 → float_to_int (in_units v) ≡ v
unfolding float_to_int
float_to_int-in_units zero h = rw in_units-zero refl
float_to_int-in_units (suc w) h =
    let f = in_units (suc w) in
    let small : w < 562949953421312 = omega arith in
    let near = in_units-near w h in
    let ten = times-ten w f.0 f.1 small near in
    let t = nearest (f.0 * 10) f.1 in
    let five = plus-five w t.0 t.1 small ten in
    let a = nearest (t.0 + 5 * t.1) t.1 in
    let last = over-ten w a.0 a.1 small five in
    let i = nearest a.0 (a.1 * 10) in rw (positive w f.0 f.1 near) (whole-part w i.0 i.1 last)
