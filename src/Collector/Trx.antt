-- ===== src/Collector/Trx.antt =====
-- `collect_pretty_transaction` (btc_data_collector/collect_btc_block.py): a transaction of BTC and
-- the chains like it. The outputs of the transactions that its inputs spend are the node's answers,
-- which the source asks for again until it gets them.
pub mod Laws
use mathlib.Core.Option
use cross_chain_mid_ware.Base.{
  ℕ, String, Bool, true, false, ◌||◌, Option, none, some, List, [], ◌∷◌, ◌++◌, str_eq, get_elem?,
  ◌==◌, if◌then◌else◌,
}
use cross_chain_mid_ware.Base.DictOrder.{DictOrder}
use cross_chain_mid_ware.Base.Result.{Result, ok, err, index_error, value_error, ◌>>=◌, from_option}
use cross_chain_mid_ware.Collector.Amount.{fixed8}
use cross_chain_mid_ware.Collector.Scan.{Entry, Scan, start, add_in, add_out}
use cross_chain_mid_ware.Collector.Record.{TrxType, Transfers, trx_type, record_trx}

-- An output as the node describes it, `value` in units of 1e-8.
pub record Vout : Type 0 where
  pub n : ℕ
  pub value : ℕ
  pub script_type : String
  pub hex : String
  pub addresses : Option (List String)

pub data TrxIn : Type 0 where
  coinbase : TrxIn
  spend : String → ℕ → TrxIn

pub record BaseTrx : Type 0 where
  pub txid : String
  pub vin : List TrxIn
  pub vout : List Vout

-- `multisig_address` is pybitcointools' address of a multisig script; `previous` answers
-- `getrawtransaction` with the outputs of a transaction.
pub record Chain : Type 0 where
  pub multisig_address : String → String
  pub previous : String → List Vout

-- `_get_vout_address`
unfoldable pub get_vout_address : Chain → Vout → Result String
get_vout_address chain v =
    if str_eq v.script_type "multisig"
    then ok (chain.multisig_address v.hex)
    else if str_eq v.script_type "witness_v0_scripthash"
        || str_eq v.script_type "witness_v0_keyhash"
    then ok v.hex
    else elim v.addresses [ none ↦ ok "" | some list ↦ from_option index_error (get_elem? list 0) ]

-- The first output numbered `n`.
unfoldable pub find_vout : ℕ → List Vout → Option Vout
find_vout n [] = none
find_vout n (v ∷ vs) = if v.n == n then some v else find_vout n vs

-- `in_trx` after the search: the output found, or else what the variable held before.
abbrev pub InTrx : Type 0
InTrx = Option (String × ℕ)

unfoldable pub search_in_trx : Chain → InTrx → Option Vout → Result InTrx
search_in_trx chain in_trx none = ok in_trx
search_in_trx chain in_trx (some v) = do a ← get_vout_address chain v; ok (some (a, v.value))

module _ (chain : Chain) (multisig : List String) where
  -- One input: `trx_data["vin"]` and the rest of the state go on, unless the output that it spends
  -- has no address. An `in_trx` that was never set is an error.
  unfoldable pub collect_input :
      String → ℕ → InTrx → List Entry → Scan → Result (InTrx × List Entry × Scan)
  collect_input txid n in_trx vin s = do
    let vouts = chain.previous txid
    prev ← from_option index_error (get_elem? vouts n)
    addr ← get_vout_address chain prev
    if str_eq addr "" then ok (in_trx, vin, s) else do
      in_trx' ← search_in_trx chain in_trx (find_vout n vouts)
      found ← from_option value_error in_trx'
      let e : Entry = record { address = found.0; value = found.1; index = n; ref = txid }
      ok (in_trx', vin ++ e ∷ [], add_in multisig e s)

  unfoldable pub collect_vin : List TrxIn → InTrx → List Entry → Scan → Result (List Entry × Scan)
  collect_vin [] in_trx vin s = ok (vin, s)
  collect_vin (coinbase ∷ ins) in_trx vin s = collect_vin ins in_trx vin s
  collect_vin (spend txid n ∷ ins) in_trx vin s =
      collect_input txid n in_trx vin s >>= λ r. collect_vin ins r.0 r.1 r.2

module _ (multisig : List String) where
  -- One output, with its `scriptPubKey.addresses`, if it has them: the first one counts.
  unfoldable pub collect_output :
      Vout → Option (List String) → List Entry → Scan → Result (List Entry × Scan)
  collect_output v none vout s = ok (vout, s)
  collect_output v (some list) vout s = do
    a ← from_option index_error (get_elem? list 0)
    let e : Entry = record { address = a; value = v.value; index = v.n; ref = v.hex }
    ok (vout ++ e ∷ [], add_out multisig e s)

  unfoldable pub collect_vout : List Vout → List Entry → Scan → Result (List Entry × Scan)
  collect_vout [] vout s = ok (vout, s)
  collect_vout (v ∷ vs) vout s =
      collect_output v v.addresses vout s >>= λ r. collect_vout vs r.0 r.1

-- `trx_data`, which is returned where there is something to record.
pub record TrxData : Type 0 where
  pub trxid : String
  pub block_num : ℕ
  pub vin : List Entry
  pub vout : List Entry
  pub type : TrxType

abbrev pub trx_data : String → ℕ → List Entry → List Entry → TrxType → TrxData
trx_data txid block_num vin vout t = record {
  trxid = txid;
  block_num = block_num;
  vin = vin;
  vout = vout;
  type = t;
}

unfoldable pub collect_pretty_transaction :
    Chain
    → DictOrder ℕ
    → List String
    → String
    → BaseTrx
    → ℕ
    → Transfers
    → Result (Option TrxData × Transfers)
collect_pretty_transaction chain order multisig asset_symbol trx block_num c = do
  ins ← collect_vin chain multisig trx.vin none [] start
  outs ← collect_vout multisig trx.vout [] ins.1
  c' ← record_trx order fixed8 asset_symbol trx.txid block_num outs.1 c
  ok (Option.map (trx_data trx.txid block_num ins.0 outs.0) (trx_type outs.1), c')
