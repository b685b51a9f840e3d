-- ===== src/Eth/Amount/RoundTrip.antt =====
-- Amounts of ETH and its tokens read back from their texts.
use cross_chain_mid_ware.Base.{
  ℕ, ◌-◌, ◌≡◌, refl, sym, ap, ◌∙◌, String, true, false, some, str_eq, leb, if◌then◌else◌,
  Bool-cases, inl, inr, arith, eq_iff,
}
use text.Mathlib.TextLemmas.{nil-append, cons-append}
use cross_chain_mid_ware.Base.Text.{show, len, prefix, suffix, rstrip_zeros, ◌<>◌}
use cross_chain_mid_ware.Base.Text.Decimal.{
  read_units, read_whole, read_fraction, value, shift, IsDigits, read_fraction-rstrip,
  read_fraction-zeros, read_fraction-value, read_whole-digits, prefix-suffix, len-suffix,
  split-IsDigits, show-IsDigits, value-show, value-append,
}
use cross_chain_mid_ware.Base.Text.Decimal.Point.{read_units-point}
use cross_chain_mid_ware.Eth.Amount.{turn_amount_from_eth}

read_small :
    (s : String) (p : ℕ)
    → IsDigits s
    → leb (len s) p ≡ true
    → read_units p (turn_amount_from_eth s p) ≡ some (value 0 s)
unfolding turn_amount_from_eth shift
read_small s p d h =
    rw h (
      read_units-point p _ ∙ read_fraction-zeros (p - len s) (len s) p _ (ground (arith, h)) ∙ last)
  where
    last :
        read_fraction (len s) 0 (if str_eq (rstrip_zeros s) "" then s else rstrip_zeros s)
        ≡ some (value 0 s)
    last =
        let kept = read_fraction-rstrip s (len s) 0 0 d (omega arith) in
        let whole = read_fraction-value s (len s) 0 0 d (omega arith) in ground (arith, kept, whole)

read_whole-fraction :
    (p acc : ℕ) (t : String)
    → read_whole p acc ((if str_eq t "" then "" else ".") <> t) ≡ read_fraction p acc t
unfolding read_whole read_fraction
read_whole-fraction p acc t = elim (Bool-cases (str_eq t "")) [
  | inl e ↦ let n : t ≡ "" = ground (arith, e, eq_iff t "") in rw (e, nil-append, n) refl
  | inr e ↦ rw (e, cons-append, nil-append) refl
]

-- One coin or more.
read_large :
    (s : String) (p : ℕ)
    → IsDigits s
    → leb (len s) p ≡ false
    → read_units p (turn_amount_from_eth s p) ≡ some (value 0 s)
unfolding turn_amount_from_eth read_units
read_large s p d h =
    let whole = len s - p in
    let e : value (value 0 (prefix whole s)) (suffix whole s) ≡ value 0 s =
      sym (value-append 0 (prefix whole s) (suffix whole s))
      ∙ ap (value 0) (prefix-suffix whole s) in
    let (dp, ds) = split-IsDigits whole s d in
    let l = len-suffix whole s in
    rw h (
      read_whole-digits p 0 (prefix whole s) _ dp
      ∙ read_whole-fraction p _ _
      ∙ read_fraction-rstrip (suffix whole s) p 0 _ ds (ground (arith, h, l))
      ∙ ap some (unfold shift in e))

-- The text that the collector writes for a number of units reads back as that number, whatever the
-- number of decimals of the coin; so it has no more decimals than the coin.
pub turn_amount_from_eth-reads : (v p : ℕ) → read_units p (turn_amount_from_eth (show v) p) ≡ some v
turn_amount_from_eth-reads v p =
    let d = show-IsDigits v in
    elim (Bool-cases (leb (len (show v)) p)) [
      | inl h ↦ read_small (show v) p d h ∙ ap some (value-show v)
      | inr h ↦ read_large (show v) p d h ∙ ap some (value-show v)
    ]
