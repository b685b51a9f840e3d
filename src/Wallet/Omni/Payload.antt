-- ===== src/Wallet/Omni/Payload.antt =====
-- The payload that utils/usdt_utils.py writes for the Omni layer, read back.
use cross_chain_mid_ware.Base.{ℕ, suc, ◌+◌, ◌-◌, ◌<◌, ◌≡◌, ap, sym, ◌∙◌, String, arith}
use cross_chain_mid_ware.Base.Result.{Result, ok}
use cross_chain_mid_ware.Base.Text.{◌<>◌, len, zeros, prefix, suffix}
use cross_chain_mid_ware.Base.Text.Decimal.{len-append}
use cross_chain_mid_ware.Base.Text.Hex.{show_hex, read_hex}
use cross_chain_mid_ware.Base.Text.Hex.RoundTrip.{
  read_hex-zeros, read_hex-show_hex, len-show_hex, len-zeros, hex_limit,
}
use cross_chain_mid_ware.Base.Text.Slices.{prefix-append, suffix-append, prefix-all, suffix-suffix}
use cross_chain_mid_ware.Wallet.SimBtc.{float_to_int, in_units}
use cross_chain_mid_ware.Wallet.SimBtc.Rounding.{float_to_int-in_units}
use cross_chain_mid_ware.Wallet.Omni.{hex_pad, omni_payload}

read_hex-hex_pad : (w n : ℕ) → read_hex 0 (hex_pad w n) ≡ ok n
unfolding hex_pad
read_hex-hex_pad w n = read_hex-zeros (w - len (show_hex n)) (show_hex n) ∙ read_hex-show_hex n

len-hex_pad : (w n : ℕ) → n < hex_limit (suc w) → len (hex_pad (suc w) n) ≡ suc w
unfolding hex_pad
len-hex_pad w n h = omega (
  arith,
  len-show_hex n w h,
  len-append (zeros (suc w - len (show_hex n))) (show_hex n),
  len-zeros (suc w - len (show_hex n)),
)

-- The field of `n` characters at `k`, as a number.
unfoldable pub field : ℕ → ℕ → String → Result ℕ
unfolding prefix suffix read_hex
field k n s = read_hex 0 (prefix n (suffix k s))

field-here :
    (w n : ℕ) (t : String) → n < hex_limit (suc w) → field 0 (suc w) (hex_pad (suc w) n <> t) ≡ ok n
unfolding field suffix
field-here w n t h =
    sym (ap (λ k. read_hex 0 (prefix k (hex_pad (suc w) n <> t))) (len-hex_pad w n h))
    ∙ ap (read_hex 0) (prefix-append (hex_pad (suc w) n) t)
    ∙ read_hex-hex_pad (suc w) n

field-last : (w n : ℕ) → n < hex_limit (suc w) → field 0 (suc w) (hex_pad (suc w) n) ≡ ok n
unfolding field suffix
field-last w n h =
    sym (ap (λ k. read_hex 0 (prefix k (hex_pad (suc w) n))) (len-hex_pad w n h))
    ∙ ap (read_hex 0) (prefix-all (hex_pad (suc w) n))
    ∙ read_hex-hex_pad (suc w) n

-- The fields behind the first one.
field-behind :
    (w n i k : ℕ) (t : String)
    → n < hex_limit (suc w)
    → field (suc w + i) k (hex_pad (suc w) n <> t) ≡ field i k t
unfolding field
field-behind w n i k t h =
    let behind : suffix (suc w) (hex_pad (suc w) n <> t) ≡ t =
      sym (ap (λ j. suffix j (hex_pad (suc w) n <> t)) (len-hex_pad w n h))
      ∙ suffix-append (hex_pad (suc w) n) t in
    ap (λ s. read_hex 0 (prefix k s)) (suffix-suffix (suc w) i _ ∙ ap (suffix i) behind)

-- A payload for a token below 2 ^ 32 and an amount below 2 ^ 49 units, where the roundings of its
-- floats do not show, reads back in fields of two, two, four and eight bytes, high byte first:
-- version 0, kind 0, the token and the amount; and it ends there, after 32 characters.
pub omni_payload-fields :
    (property_id amount : ℕ)
    → property_id < 4294967296
    → amount < 562949953421312
    → let payload = omni_payload property_id amount in
      (field 0 4 payload ≡ ok 0)
      × (field 4 4 payload ≡ ok 0)
      × (field 8 8 payload ≡ ok property_id)
      × (field 16 16 payload ≡ ok amount)
      × (len payload ≡ 32)
unfolding omni_payload hex_limit
omni_payload-fields property_id amount p a =
    let amount' : float_to_int (in_units amount) ≡ amount = float_to_int-in_units amount a in
    let zero_4 : 0 < hex_limit 4 = omega arith in
    let fits : amount < hex_limit 16 = omega (arith, a) in
    let last = hex_pad 16 amount in
    let token = hex_pad 8 property_id <> last in
    let kind = hex_pad 4 0 <> token in
    rw amount' (
      field-here 3 0 kind zero_4,
      field-behind 3 0 0 4 kind zero_4 ∙ field-here 3 0 token zero_4,
      field-behind 3 0 4 8 kind zero_4
          ∙ field-behind 3 0 0 8 token zero_4
          ∙ field-here 7 property_id last p,
      field-behind 3 0 12 16 kind zero_4
          ∙ field-behind 3 0 8 16 token zero_4
          ∙ field-behind 7 property_id 0 16 last p
          ∙ field-last 15 amount fits,
      omega (
        arith,
        len-append (hex_pad 4 0) kind,
        len-append (hex_pad 4 0) token,
        len-append (hex_pad 8 property_id) last,
        len-hex_pad 3 0 zero_4,
        len-hex_pad 7 property_id p,
        len-hex_pad 15 amount fits,
      ),
    )
