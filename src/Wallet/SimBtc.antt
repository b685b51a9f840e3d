-- ===== src/Wallet/SimBtc.antt =====
-- utils/sim_btc_utils.py, `sim_btc_create_transaction`: the plug-in of BTC, LTC, UB, BCH and DOGE.
-- Amounts are counted in 1e-8 coins, which is what the source rounds each float to, and what
-- `dest_info` pays is no less than 0. The request is first laid out as a `Plan` and then sent.
pub mod Balance
pub mod Payees
pub mod Rounding
use cross_chain_mid_ware.Base.{
  ℕ, ◌+◌, ◌-◌, ◌*◌, ◌/◌, String, Bool, true, false, Option, none, some, List, [], ◌∷◌, map, str_eq,
  ltb, ◌==◌, if◌then◌else◌, length, leb,
}
use cross_chain_mid_ware.Base.Double.{nearest}
use cross_chain_mid_ware.Base.Text.{upper, show, ◌<>◌}
use cross_chain_mid_ware.Base.Int.{ℤ, pos, ◌+ℤ◌, ◌-ℤ◌}
use cross_chain_mid_ware.Base.Dict.{Dict, lookup, insert}
use cross_chain_mid_ware.Base.DictOrder.{DictOrder}
use cross_chain_mid_ware.Base.Result.{Result, ok, err, key_error, type_error, ◌>>=◌, from_option}
use cross_chain_mid_ware.Wallet.Select.{TxOut, Selection, select, sort_desc}
use cross_chain_mid_ware.Wallet.Interface.{
  Vin, DecodedVin, Trx, Node, FeeConfig, Created, get_trx_out,
}
use cross_chain_mid_ware.Wallet.Outputs.{dest_vouts, dest_amount, add_change, kilobytes}

-- `vin_need` and `vouts` as they stand when the request is sent.
pub record Plan : Type 0 where
  pub vin_need : List TxOut
  pub vouts : Dict ℤ

-- An amount of `v` units times 1e8: the double nearest to it in coins, multiplied.
unfoldable pub in_units : ℕ → ℕ × ℕ
in_units v = let a = nearest v 100000000 in nearest (a.0 * 100000000) a.1

-- `floatToInt` of a double; each operation is rounded.
unfoldable pub float_to_int : ℕ × ℕ → ℕ
float_to_int f =
    let tenfold = nearest (f.0 * 10) f.1 in
    let added = nearest (tenfold.0 + 5 * tenfold.1) tenfold.1 in
    let i = nearest added.0 (added.1 * 10) in if ltb 0 f.0 then i.0 / i.1 else 0

module _ (config : FeeConfig) (order : DictOrder ℤ) where
  -- `trx_size` and the fee computed from it.
  unfoldable pub size_fee : ℕ → ℕ → ℕ
  size_fee vins vouts =
      kilobytes (vins * config.vin_size + (vouts + 1) * config.vout_size) * config.per_fee

  unfoldable pub cal_fee : Bool → ℕ → ℕ → ℕ
  cal_fee is_fast vins vouts = if is_fast then config.fee else size_fee vins vouts

  -- `full_send`: the first output gets what the configured fee exceeds the computed one by, and
  -- the configured fee counts from there on.
  unfoldable pub full_send_vouts : ℕ → Dict ℤ → Dict ℤ × ℕ
  full_send_vouts cal vouts = elim (order.items vouts) [
    | [] ↦ (vouts, cal)
    | kv ∷ rest ↦ (insert kv.0 (kv.1 +ℤ pos config.fee -ℤ pos cal) vouts, config.fee)
  ]

  -- From the comparison of `cal_fee` with `fee` on. The coins cover amount and fee here, and the
  -- fee the computed one, so the subtractions stay above 0.
  unfoldable pub settle : String → ℕ → Selection → Dict ℤ × ℕ → Option Plan
  settle from_addr amount s (vouts, cal) =
      if ltb config.fee cal
      then none
      else if s.total - amount == cal
      then some (record { vin_need = s.vin_need; vouts = vouts })
      else some (record {
        vin_need = s.vin_need;
        vouts = add_change from_addr (s.total - amount - cal) vouts;
      })

  unfoldable pub plan_from : String → Dict ℕ → Bool → Bool → Selection → Option Plan
  plan_from from_addr dest_info is_fast full_send s =
      let vouts = dest_vouts dest_info in
      let amount = dest_amount dest_info in
      let cal = cal_fee is_fast (length s.vin_need) (length vouts) in
      if ltb s.total (amount + config.fee)
      then none
      else settle from_addr amount s (if full_send then full_send_vouts cal vouts else (vouts, cal))

  unfoldable pub sim_btc_plan : String → Dict ℕ → Bool → Bool → List TxOut → Option Plan
  sim_btc_plan from_addr dest_info is_fast full_send txout =
      if length txout == 0
      then none
      else plan_from from_addr dest_info is_fast full_send
          (select 8 5 (dest_amount dest_info + config.fee) (sort_desc txout))

abbrev pub plan_vin : TxOut → Vin
plan_vin x = record { txid = x.txid; vout = x.vout; script = x.script; sequence = some 0xfffffff0 }

-- `vins_map`, the amounts of the inputs, keyed by transaction and output number.
unfoldable pub vins_map : Dict ℕ → List TxOut → Dict ℕ
vins_map m [] = m
vins_map m (x ∷ xs) = vins_map (insert (x.txid <> show x.vout) x.amount m) xs

-- BCH signs over the amounts: each input of the decoded transaction is given its own.
unfoldable pub set_amounts : Dict ℕ → List DecodedVin → Result (List DecodedVin)
set_amounts amounts [] = ok []
set_amounts amounts (v ∷ vs) = do
  let key = v.txid <> show v.vout
  amount ← from_option (key_error key) (lookup key amounts)
  rest ← set_amounts amounts vs
  ok (record v { amount = some (float_to_int (in_units amount)) } ∷ rest)

unfoldable pub stamp_trx : String → List TxOut → Option Trx → Result (Option Trx)
unfolding set_amounts
stamp_trx name vin_need trx =
    if str_eq (upper name) "BCH"
    then (do
      t ← from_option type_error trx
      vin ← set_amounts (vins_map [] vin_need) t.vin
      ok (some (record t { vin = vin })))
    else ok trx

-- The request and its answer; `none` is the text "" that the source returns instead.
unfoldable pub send_plan : Node → String → Option Plan → Result (Option Created)
send_plan node name none = ok none
send_plan node name (some p) = elim (node.create_raw (map plan_vin p.vin_need) p.vouts) [
  | none ↦ ok none
  | some hex ↦ stamp_trx name p.vin_need (node.decode_raw hex) >>= λ trx.
      ok (some (record { trx = trx; hex = hex; script = map TxOut.script p.vin_need }))
]

unfoldable pub sim_btc_create_transaction :
    FeeConfig
    → DictOrder ℤ
    → Node
    → String
    → String
    → Dict ℕ
    → Bool
    → Bool
    → Result (Option Created)
sim_btc_create_transaction config order node name from_addr dest_info is_fast full_send =
    send_plan node name
      (sim_btc_plan config order from_addr dest_info is_fast full_send (get_trx_out node from_addr))
