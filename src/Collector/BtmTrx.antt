-- ===== src/Collector/BtmTrx.antt =====
-- `collect_pretty_transaction_btm` (btc_data_collector/collect_btc_block.py): a transaction of BTM,
-- whose inputs carry their addresses, and of which only the native asset counts.
pub mod Laws
use mathlib.Core.Option
use cross_chain_mid_ware.Base.{
  ℕ, String, Bool, true, false, not, Option, none, some, List, [], ◌∷◌, ◌++◌, str_eq, if◌then◌else◌,
}
use cross_chain_mid_ware.Base.DictOrder.{DictOrder}
use cross_chain_mid_ware.Base.Result.{Result, ok, err, ◌>>=◌}
use cross_chain_mid_ware.Collector.Amount.{to_btm_precision_str}
use cross_chain_mid_ware.Collector.Scan.{Entry, Scan, start, add_in, add_out}
use cross_chain_mid_ware.Collector.Record.{Transfers, trx_type, record_trx}
use cross_chain_mid_ware.Collector.Trx.{TrxData, trx_data}

-- `none` where the node's answer has no such key.
pub record BtmIn : Type 0 where
  pub type : Option String
  pub address : Option String
  pub asset_id : Option String
  pub amount : ℕ

pub record BtmOut : Type 0 where
  pub type : Option String
  pub address : Option String
  pub asset_id : Option String
  pub amount : ℕ
  pub position : ℕ
  pub control_program : String

pub record BtmTrx : Type 0 where
  pub id : String
  pub inputs : List BtmIn
  pub outputs : List BtmOut

abbrev pub native_asset : String
native_asset = "ffffffffffffffffffffffffffffffffffffffffffffffffffffffffffffffff"

-- `value == text`, for a value that may be None.
abbrev pub is_text : Option String → String → Bool
is_text none t = false
is_text (some s) t = str_eq s t

module _ (multisig : List String) where
  unfoldable pub collect_in : BtmIn → Option String → List Entry → Scan → List Entry × Scan
  collect_in i none vin s = (vin, s)
  collect_in i (some a) vin s =
      if not (is_text i.type "spend")
      then (vin, s)
      else if not (is_text i.asset_id native_asset)
      then (vin, s)
      else let e : Entry = record { address = a; value = i.amount; index = 0; ref = "" } in
        (vin ++ e ∷ [], add_in multisig e s)

  unfoldable pub collect_inputs : List BtmIn → List Entry → Scan → List Entry × Scan
  collect_inputs [] vin s = (vin, s)
  collect_inputs (i ∷ is) vin s =
      let (vin', s') = collect_in i i.address vin s in collect_inputs is vin' s'

  -- An output with an address is listed even where it does not count.
  unfoldable pub collect_out : BtmOut → Option String → List Entry → Scan → List Entry × Scan
  collect_out o none vout s = (vout, s)
  collect_out o (some a) vout s =
      let e : Entry = record {
        address = a;
        value = o.amount;
        index = o.position;
        ref = o.control_program;
      } in
      (
        vout ++ e ∷ [],
        if not (is_text o.type "control")
            then s
            else if not (is_text o.asset_id native_asset)
            then s
            else add_out multisig e s,
      )

  unfoldable pub collect_outputs : List BtmOut → List Entry → Scan → List Entry × Scan
  collect_outputs [] vout s = (vout, s)
  collect_outputs (o ∷ os) vout s =
      let (vout', s') = collect_out o o.address vout s in collect_outputs os vout' s'

unfoldable pub collect_pretty_transaction_btm :
    DictOrder ℕ
    → List String
    → String
    → BtmTrx
    → ℕ
    → Transfers
    → Result (Option TrxData × Transfers)
collect_pretty_transaction_btm order multisig asset_symbol trx block_num c =
    let (vin, s) = collect_inputs multisig trx.inputs [] start in
    let (vout, s') = collect_outputs multisig trx.outputs [] s in
    record_trx order to_btm_precision_str asset_symbol trx.id block_num s' c >>= λ c'.
    ok (Option.map (trx_data trx.id block_num vin vout) (trx_type s'), c')
