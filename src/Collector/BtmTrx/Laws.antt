-- ===== src/Collector/BtmTrx/Laws.antt =====
-- A transaction of BTM: what is recorded for it, from its inputs and outputs.
use cross_chain_mid_ware.Base.{
  ℕ, ◌≡◌, refl, ap, sym, ◌∙◌, String, false, ◌&&◌, Option, none, some, List, [], ◌∷◌, arith,
  if◌then◌else◌,
}
use cross_chain_mid_ware.Base.DictOrder.{DictOrder}
use cross_chain_mid_ware.Base.Result.{ok, >>=-eq-ok, ok-injective}
use cross_chain_mid_ware.Collector.Amount.{to_btm_precision_str}
use cross_chain_mid_ware.Collector.Scan.{Entry, Scan, start, elem, add_ins, add_outs}
use cross_chain_mid_ware.Collector.Scan.Spec.{scanned, scan_lem}
use cross_chain_mid_ware.Collector.Record.{Transfers, record_trx}
use cross_chain_mid_ware.Collector.Trx.{TrxData}
use cross_chain_mid_ware.Collector.BtmTrx.{
  BtmIn, BtmOut, BtmTrx, native_asset, is_text, collect_in, collect_inputs, collect_out,
  collect_outputs, collect_pretty_transaction_btm,
}

-- The inputs that count: those that spend the native asset from an address.
pub native_spends : List BtmIn → List Entry
native_spends [] = []
native_spends (i ∷ is) =
    let rest = native_spends is in
    elim i.address [
      | none ↦ rest
      | some a ↦
          if is_text i.type "spend" && is_text i.asset_id native_asset
          then record { address = a; value = i.amount; index = 0; ref = "" } ∷ rest
          else rest
    ]

-- The outputs that count: those that pay the native asset to an address.
pub native_payments : List BtmOut → List Entry
native_payments [] = []
native_payments (o ∷ os) =
    let rest = native_payments os in
    elim o.address [
      | none ↦ rest
      | some a ↦
          if is_text o.type "control" && is_text o.asset_id native_asset
          then record { address = a; value = o.amount; index = o.position; ref = o.control_program }
            ∷ rest
          else rest
    ]

module _ (multisig : List String) where
  collect_inputs-adds :
      (is : List BtmIn) (vin : List Entry) (s : Scan)
      → (collect_inputs multisig is vin s).1 ≡ add_ins multisig (native_spends is) s
  unfolding collect_inputs collect_in native_spends add_ins
  collect_inputs-adds [] vin s = refl
  collect_inputs-adds (i ∷ is) vin s =
      let (vin', s') = collect_in multisig i i.address vin s in
      ground (arith, collect_inputs-adds is vin' s')

  collect_outputs-adds :
      (os : List BtmOut) (vout : List Entry) (s : Scan)
      → (collect_outputs multisig os vout s).1 ≡ add_outs multisig (native_payments os) s
  unfolding collect_outputs collect_out native_payments add_outs
  collect_outputs-adds [] vout s = refl
  collect_outputs-adds (o ∷ os) vout s =
      let (vout', s') = collect_out multisig o o.address vout s in
      ground (arith, collect_outputs-adds os vout' s')

-- If the empty text is no multisig address, what is recorded for a BTM transaction is what is
-- recorded for its inputs that spend the native asset and its outputs that pay it: all other
-- inputs and outputs change nothing.
pub collect_pretty_transaction_btm_lem :
    (order : DictOrder ℕ) (multisig : List String) (symbol : String) (trx : BtmTrx) (block_num : ℕ)
    (c : Transfers) (r : Option TrxData × Transfers)
    → elem "" multisig ≡ false
    → collect_pretty_transaction_btm order multisig symbol trx block_num c ≡ ok r
    → record_trx order to_btm_precision_str symbol trx.id block_num
        (scanned multisig (native_spends trx.inputs) (native_payments trx.outputs))
        c
      ≡ ok r.1
unfolding collect_pretty_transaction_btm
collect_pretty_transaction_btm_lem order multisig symbol trx block_num c r ne h =
    let (vin, s) = collect_inputs multisig trx.inputs [] start in
    let (vout, s') = collect_outputs multisig trx.outputs [] s in
    let (c', hc, h1) =
      >>=-eq-ok (record_trx order to_btm_precision_str symbol trx.id block_num s' c) _ h in
    let found : s' ≡ scanned multisig (native_spends trx.inputs) (native_payments trx.outputs) =
      collect_outputs-adds multisig trx.outputs [] s
      ∙ ap (add_outs multisig (native_payments trx.outputs))
          (collect_inputs-adds multisig trx.inputs [] start)
      ∙ scan_lem multisig ne (native_spends trx.inputs) (native_payments trx.outputs) in
    sym (ap (λ t. record_trx order to_btm_precision_str symbol trx.id block_num t c) found)
    ∙ hc
    ∙ ap ok (ap (λ (q : Option TrxData × Transfers). q.1) (ok-injective h1))
