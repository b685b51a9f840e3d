-- ===== src/Wallet/Omni.antt =====
-- utils/usdt_utils.py: the plug-in of USDT, which pays in tokens of the Omni layer on BTC. The payee
-- gets the least output that is no dust, and the tokens are named by a payload. Amounts are whole
-- numbers of 1e-8 coins or tokens, which is what the source rounds its floats to, and what
-- `dest_info` pays is no less than 0. The node and the collector service are parameters.
pub mod Laws
pub mod Payload
pub mod Tests
use cross_chain_mid_ware.Base.{
  ℕ, ◌+◌, ◌-◌, ◌*◌, ◌/◌, String, Bool, true, false, ◌&&◌, ◌||◌, Option, none, some, List, [], ◌∷◌,
  ◌++◌, map, length, ltb, leb, ◌==◌, if◌then◌else◌,
}
use cross_chain_mid_ware.Base.Text.{◌<>◌, len, zeros}
use cross_chain_mid_ware.Base.Text.Hex.{show_hex}
use cross_chain_mid_ware.Base.Dict.{Dict, insert, lookup}
use cross_chain_mid_ware.Wallet.Select.{TxOut, sort_desc}
use cross_chain_mid_ware.Wallet.Interface.{FeeConfig, Vin, drop_null}
use cross_chain_mid_ware.Wallet.Outputs.{dest_amount, dust, kilobytes}
use cross_chain_mid_ware.Wallet.SimBtc.{float_to_int, in_units}

-- What `omni_getbalance` answers with.
pub data OmniBalance : Type 0 where
  text : String → OmniBalance
  number : ℕ → OmniBalance

pub record OmniNode : Type 0 where
  pub list_unspent : String → Option (List (Option TxOut))
  pub get_balance : String → Option OmniBalance
  pub create_raw : List Vin → Dict ℕ → Option String
  pub create_opreturn : String → String → Option String
  pub decode_raw : String → Option String
  pub get_raw : String → Option String
  pub omni_transaction : String → Option String
  pub combine_raw : List String → Option String

unfoldable pub omni_get_trx_out : OmniNode → String → List TxOut
omni_get_trx_out node addr = elim (node.list_unspent addr) [ none ↦ [] | some xs ↦ drop_null xs ]

unfoldable pub omni_get_balance : OmniNode → String → OmniBalance
omni_get_balance node addr = elim (node.get_balance addr) [ none ↦ text "0" | some b ↦ b ]

-- The transaction, and what the Omni layer says of it; none where the source returns "".
unfoldable pub omni_get_transaction : OmniNode → String → Option (String × Option String)
omni_get_transaction node trxid = elim (node.get_raw trxid) [
  | none ↦ none
  | some trx ↦ some (trx, node.omni_transaction trxid)
]

-- The text, and its decoded form.
unfoldable pub omni_combine_trx : OmniNode → List String → Option (String × Option String)
omni_combine_trx node signatures = elim (node.combine_raw signatures) [
  | none ↦ none
  | some hex ↦ some (hex, node.decode_raw hex)
]

-- `omni_balance < amount`: in Python 2 a text is above every number.
unfoldable pub is_below : OmniBalance → ℕ → Bool
is_below (text s) amount = false
is_below (number n) amount = ltb n amount

-- Each payee's output: the least that is no dust.
unfoldable pub omni_vouts : Dict ℕ → Dict ℕ
omni_vouts [] = []
omni_vouts ((addr, num) ∷ d) = insert addr dust (omni_vouts d)

-- The first loop, from the sum `total` on: the sum it ends with, and the outputs it takes.
unfoldable pub take_coins : ℕ → List TxOut → ℕ → ℕ × List TxOut
take_coins fee [] total = (total, [])
take_coins fee (x ∷ xs) total =
    let (sum, need) = take_coins fee xs (total + x.amount) in
    if leb fee total then (total, []) else (sum, x ∷ need)

-- The second loop: the first output of 546 units, whether the first loop took it or not.
unfoldable pub find_546 : List TxOut → Option TxOut
find_546 [] = none
find_546 (x ∷ xs) = let rest = find_546 xs in if x.amount == dust then some x else rest

-- The coin of 546, and the payee's output in the fee where there is none.
abbrev pub with_546 : Option TxOut → List TxOut → List TxOut
with_546 none need = need
with_546 (some x) need = need ++ x ∷ []

abbrev pub dust_fee : Option TxOut → ℕ → ℕ
dust_fee none cal = cal + dust
dust_fee (some x) cal = cal

unfoldable pub hex_pad : ℕ → ℕ → String
unfolding len zeros show_hex
hex_pad width n = let digits = show_hex n in zeros (width - len digits) <> digits

-- `"%04x%04x%08x%016x"`: version and kind 0, the token, the amount.
unfoldable pub omni_payload : ℕ → ℕ → String
unfolding hex_pad
omni_payload property_id amount =
    hex_pad 4 0
    <> (hex_pad 4 0 <> (hex_pad 8 property_id <> hex_pad 16 (float_to_int (in_units amount))))

-- `vin_need`, `vouts` and `omni_payload` as they stand when the request is sent.
pub record OmniPlan : Type 0 where
  pub vin_need : List TxOut
  pub vouts : Dict ℕ
  pub payload : String

module _ (config : FeeConfig) where
  -- `trx_size` and the fee computed from it.
  unfoldable pub omni_size_fee : ℕ → ℕ → ℕ
  omni_size_fee vins vouts =
      kilobytes (vins * config.vin_size + (vouts + 1) * config.vout_size + 40) * config.per_fee

  -- From the comparison of the fees on. `cal` counts the payee's output where no coin of 546 pays
  -- for it; the sum covers the configured fee here, which covers the computed one.
  unfoldable pub omni_change : String → ℕ → ℕ → Dict ℕ → Dict ℕ
  omni_change from_addr total cal vouts =
      if config.fee == cal then vouts else elim (lookup from_addr vouts) [
        | some v ↦ insert from_addr (total + v - cal) vouts
        | none ↦ if ltb (cal + dust) config.fee then insert from_addr (total - cal) vouts else vouts
      ]

module _ (config : FeeConfig) (property_id : ℕ) where
  -- With the coins that the loops found; none where the source returns "".
  unfoldable pub omni_plan_with : String → Dict ℕ → ℕ × List TxOut → Option TxOut → Option OmniPlan
  unfolding omni_vouts omni_size_fee omni_change omni_payload
  omni_plan_with from_addr dest_info (total, need) small =
      let vin_need = with_546 small need in
      let vouts = omni_vouts dest_info in
      let cal = omni_size_fee config (length vin_need) (length vouts) in
      if ltb total config.fee || ltb config.fee cal
      then none
      else some (record {
        vin_need = vin_need;
        vouts = omni_change config from_addr total (dust_fee small cal) vouts;
        payload = omni_payload property_id (dest_amount dest_info);
      })

  unfoldable pub omni_plan : String → Dict ℕ → OmniBalance → List TxOut → Option OmniPlan
  unfolding omni_plan_with sort_desc is_below take_coins find_546
  omni_plan from_addr dest_info balance txout =
      let coins = sort_desc txout in
      if length txout == 0
      then none
      else if length (omni_vouts dest_info) == 1
      then if is_below balance (dest_amount dest_info)
        then none
        else omni_plan_with from_addr dest_info (take_coins config.fee coins 0) (find_546 coins)
      else none

abbrev pub omni_vin : TxOut → Vin
omni_vin x = record { txid = x.txid; vout = x.vout; script = x.script; sequence = none }

pub record OmniCreated : Type 0 where
  pub trx : Option String
  pub hex : String
  pub script : List String

-- The transaction, then the same with the payload in it.
unfoldable pub omni_send : OmniNode → Option OmniPlan → Option OmniCreated
omni_send node none = none
omni_send node (some p) = elim (node.create_raw (map omni_vin p.vin_need) p.vouts) [
  | none ↦ none
  | some trx_hex ↦ elim (node.create_opreturn trx_hex p.payload) [
    | none ↦ none
    | some hex ↦
        some (record { trx = node.decode_raw hex; hex = hex; script = map TxOut.script p.vin_need })
  ]
]

-- The answer; none where the source returns "".
unfoldable pub omni_create_transaction :
    FeeConfig → ℕ → OmniNode → String → Dict ℕ → Option OmniCreated
unfolding omni_plan omni_get_trx_out omni_get_balance omni_send
omni_create_transaction config property_id node from_addr dest_info = omni_send node (
    omni_plan config property_id from_addr dest_info (omni_get_balance node from_addr)
      (omni_get_trx_out node from_addr))
