-- ===== src/Collector/Amount/RoundTrip.antt =====
-- The amounts in the records read back from their texts.
use cross_chain_mid_ware.Base.{
  ℕ, ◌+◌, ◌-◌, ◌*◌, ◌/◌, ◌%◌, ◌<◌, ◌≡◌, refl, sym, ap, ◌∙◌, String, some, leb, Bool-cases, inl, inr,
  arith,
}
use cross_chain_mid_ware.Base.Text.{show, len, zeros, prefix, suffix, ◌<>◌}
use cross_chain_mid_ware.Base.Text.Decimal.{
  read_units, read_whole, value, shift, IsDigits, len-append, append-IsDigits, read_fraction-value,
  read_fraction-zeros, read_whole-digits, prefix-suffix, len-suffix, split-IsDigits, show-IsDigits,
  value-show, value-append,
}
use cross_chain_mid_ware.Base.Text.Decimal.Point.{
  read_units-point, read_whole-point, zeros-IsDigits, len-zeros, value-zeros_append,
  read_fraction-full, len-show,
}
use cross_chain_mid_ware.Base.Double.Laws.{units-nearest}
use cross_chain_mid_ware.Collector.Amount.{
  precision_str, to_btm_precision_str, fixed8, printed_units, eight_decimals,
}

precision_str-reads : (s : String) → IsDigits s → read_units 8 (precision_str s) ≡ some (value 0 s)
unfolding precision_str read_units shift
precision_str-reads s d = elim (Bool-cases (leb (len s) 8)) [
  | inl h ↦ rw h (
      read_units-point 8 (zeros (8 - len s) <> s)
      ∙ read_fraction-zeros (8 - len s) (len s) 8 s (ground (arith, h))
      ∙ read_fraction-value s (len s) 0 0 d (omega arith))
  | inr h ↦
      let n = len s - 8 in
      let (dp, ds) = split-IsDigits n s d in
      let l = len-suffix n s in
      let e : value (value 0 (prefix n s)) (suffix n s) ≡ value 0 s =
        sym (value-append 0 (prefix n s) (suffix n s)) ∙ ap (value 0) (prefix-suffix n s) in
      rw h (
        read_whole-digits 8 0 (prefix n s) ("." <> suffix n s) dp
        ∙ read_whole-point 8 _ (suffix n s)
        ∙ read_fraction-value (suffix n s) 8 0 _ ds (ground (arith, h, l))
        ∙ ap some e)
]

-- A whole number and a fraction of eight digits, the zeros in front of it written.
read_units-parts :
    (q r : ℕ)
    → r < 100000000
    → read_units 8 (show q <> "." <> zeros (8 - len (show r)) <> show r) ≡ some (q * 100000000 + r)
read_units-parts q r b =
    let zs = zeros (8 - len (show r)) in
    let short = len-show r 7 b in
    let d = append-IsDigits zs (show r) (zeros-IsDigits (8 - len (show r))) (show-IsDigits r) in
    let l = len-append zs (show r) in
    let size : len (zs <> show r) ≡ 8 = omega (arith, short, l, len-zeros (8 - len (show r))) in
    let low : value 0 (zs <> show r) ≡ r =
      value-zeros_append (8 - len (show r)) (show r) ∙ value-show r in
    read_units-digits 8 (show q) _ (show-IsDigits q)
    ∙ read_whole-point 8 _ (zs <> show r)
    ∙ read_fraction-full 8 _ (zs <> show r) d size
    ∙ ap some (eight (value 0 (show q)) (value 0 (zs <> show r)) ∙ omega (arith, low, value-show q))
  where
    read_units-digits :
        (p : ℕ) (s t : String) → IsDigits s → read_units p (s <> t) ≡ read_whole p (value 0 s) t
    read_units-digits p s t e = unfold read_units in read_whole-digits p 0 s t e

    eight : (a b : ℕ) → shift 8 a + b ≡ a * 100000000 + b
    eight a b = unfold shift in omega arith

eight_decimals-parts :
    (v : ℕ)
    → eight_decimals v ≡ (
        show (v / 100000000)
        <> "."
        <> zeros (8 - len (show (v % 100000000)))
        <> show (v % 100000000))
unfolding eight_decimals
eight_decimals-parts v = refl

eight_decimals-reads : (v : ℕ) → read_units 8 (eight_decimals v) ≡ some v
eight_decimals-reads v =
    ap (read_units 8) (eight_decimals-parts v)
    ∙ read_units-parts (v / 100000000) (v % 100000000) (omega arith)
    ∙ ap some (the_parts v)
  where
    the_parts : (v : ℕ) → v / 100000000 * 100000000 + v % 100000000 ≡ v
    the_parts v = omega arith

-- Below 2 ^ 52 units the text names the units themselves.
printed_units-small : (v : ℕ) → v < 4503599627370496 → printed_units v ≡ v
unfolding printed_units
printed_units-small v h = units-nearest v h

-- The text that the collector writes for a coin, of a number of units below 2 ^ 52 that it holds as
-- the nearest double, reads back as that number; and so does, for every number of units, the text
-- that it writes for BTM, which is also the balance that the plug-in of BTM answers.
pub amounts-read :
    (v w : ℕ)
    → v < 4503599627370496
    → (read_units 8 (fixed8 v) ≡ some v) × (read_units 8 (to_btm_precision_str w) ≡ some w)
unfolding to_btm_precision_str fixed8
amounts-read v w h = (
  eight_decimals-reads (printed_units v) ∙ ap some (printed_units-small v h),
  precision_str-reads (show w) (show-IsDigits w) ∙ ap some (value-show w),
)
