-- ===== src/Wallet/Hc.antt =====
-- utils/hc_utils.py, `hc_create_transaction`: the plug-in of HC. It chooses coins as the others do,
-- with other constants, and does not compare the computed fee with the configured one, so that the
-- change may be negative.
pub mod Balance
use cross_chain_mid_ware.Base.{
  ℕ, ◌+◌, ◌-◌, ◌*◌, String, Bool, true, false, Option, none, some, List, [], ◌∷◌, map, length, ltb,
  ◌==◌, if◌then◌else◌,
}
use cross_chain_mid_ware.Base.Int.{ℤ, pos, ◌+ℤ◌, ◌-ℤ◌, ltb_ℤ}
use cross_chain_mid_ware.Base.Dict.{Dict, lookup, insert}
use cross_chain_mid_ware.Wallet.Select.{TxOut, Selection, select, sort_desc}
use cross_chain_mid_ware.Wallet.Interface.{Vin, Node, FeeConfig, Created, get_trx_out}
use cross_chain_mid_ware.Wallet.Outputs.{dest_vouts, dest_amount, kilobytes, dust}
use cross_chain_mid_ware.Wallet.SimBtc.{Plan}

-- The change goes on top of what the sender is paid, or to an output of its own unless it is dust.
unfoldable pub add_signed_change : String → ℤ → Dict ℤ → Dict ℤ
add_signed_change from_addr change vouts = elim (lookup from_addr vouts) [
  | some v ↦ insert from_addr (change +ℤ v) vouts
  | none ↦ if ltb_ℤ (pos dust) change then insert from_addr change vouts else vouts
]

module _ (config : FeeConfig) where
  unfoldable pub hc_cal_fee : ℕ → ℕ → ℕ
  hc_cal_fee vins vouts =
      kilobytes (vins * config.vin_size + (vouts + 1) * config.vout_size) * config.per_fee

  unfoldable pub hc_settle : String → ℕ → ℕ → Selection → Dict ℤ → Dict ℤ
  hc_settle from_addr amount cal s vouts =
      if s.total - amount == cal
      then vouts
      else add_signed_change from_addr (pos s.total -ℤ pos amount -ℤ pos cal) vouts

  unfoldable pub hc_plan_from : String → Dict ℕ → Selection → Option Plan
  hc_plan_from from_addr dest_info s =
      let vouts = dest_vouts dest_info in
      let amount = dest_amount dest_info in
      if ltb s.total (amount + config.fee)
      then none
      else some (record {
        vin_need = s.vin_need;
        vouts = hc_settle from_addr amount (hc_cal_fee (length s.vin_need) (length vouts)) s vouts;
      })

  unfoldable pub hc_plan : String → Dict ℕ → List TxOut → Option Plan
  hc_plan from_addr dest_info txout =
      if length txout == 0
      then none
      else hc_plan_from from_addr dest_info
          (select 15 10 (dest_amount dest_info + config.fee) (sort_desc txout))

-- HC sets no sequence.
abbrev pub hc_vin : TxOut → Vin
hc_vin x = record { txid = x.txid; vout = x.vout; script = x.script; sequence = none }

unfoldable pub hc_send : Node → Option Plan → Option Created
hc_send node none = none
hc_send node (some p) = elim (node.create_raw (map hc_vin p.vin_need) p.vouts) [
  | none ↦ none
  | some hex ↦
      some (record { trx = node.decode_raw hex; hex = hex; script = map TxOut.script p.vin_need })
]

-- The answer; none where the source returns "".
unfoldable pub hc_create_transaction : FeeConfig → Node → String → Dict ℕ → Option Created
hc_create_transaction config node from_addr dest_info =
    hc_send node (hc_plan config from_addr dest_info (get_trx_out node from_addr))
