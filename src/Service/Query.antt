-- ===== src/Service/Query.antt =====
-- `Zchain.Trans.queryTrans` (service/sim_api.py, the first `zchain_trans_queryTrx`): a transaction as
-- its node describes it, kept in `b_query_trans_cache` once it is settled.
pub mod Laws
use cross_chain_mid_ware.Base.{
  ℕ, String, Bool, true, false, ◌&&◌, Option, none, some, List, [], ◌∷◌, ◌++◌, map, str_eq, ltb,
  if◌then◌else◌,
}
use cross_chain_mid_ware.Base.Text.{lower}
use cross_chain_mid_ware.Base.Result.{Result, ok, err, ◌>>=◌}
use cross_chain_mid_ware.Service.Interface.{
  Arg, given, mistyped, Response, answer, attribute_error, invalid_chainid_type, failed, Plugin,
  sim_btc, hc, usdt, btm, eth, any_plugin,
}

-- An input, with HC's `blockheight`, and its `scriptSig`.
pub record QueriedVin : Type 0 where
  pub block_height : Option ℕ
  pub script_sig : String

-- What the code looks at in a plug-in's answer; numbers below 0 count as 0 there.
pub record QueriedTrx : Type 0 where
  pub has_vout : Bool
  pub has_outputs : Bool
  pub has_input : Bool
  pub confirmations : Option ℕ
  pub vin : Option (List QueriedVin)
  pub body : String

pub record QueryRow : Type 0 where
  pub chain_id : String
  pub trxid : String
  pub result : QueriedTrx

-- `find_one({"chainId": chain, "trxid": trxid})`
unfoldable pub find_query : String → String → List QueryRow → Option QueryRow
find_query chain trxid [] = none
find_query chain trxid (r ∷ rs) =
    if str_eq r.chain_id chain && str_eq r.trxid trxid then some r else find_query chain trxid rs

-- More than seven confirmations.
abbrev pub is_confirmed : Option ℕ → Bool
is_confirmed none = false
is_confirmed (some n) = ltb 7 n

-- HC: the first input's height, if there is one; the error on a missing height is caught.
abbrev pub is_mined : Option (List QueriedVin) → Bool
is_mined none = true
is_mined (some []) = true
is_mined (some (v ∷ vs)) = elim v.block_height [ none ↦ true | some n ↦ ltb 0 n ]

-- `is_cache` at the end of the branches.
unfoldable pub is_cache : Plugin → QueriedTrx → Bool
is_cache (sim_btc name) t = t.has_vout && is_confirmed t.confirmations
is_cache usdt t = t.has_vout && is_confirmed t.confirmations
is_cache hc t = t.has_vout && is_mined t.vin
is_cache btm t = t.has_outputs
is_cache eth t = t.has_input

abbrev pub clear_sig : QueriedVin → QueriedVin
clear_sig v = record { block_height = v.block_height; script_sig = "" }

-- The scripts of the inputs are emptied before the answer.
unfoldable pub clear_script_sigs : QueriedTrx → QueriedTrx
clear_script_sigs t = record {
  has_vout = t.has_vout;
  has_outputs = t.has_outputs;
  has_input = t.has_input;
  confirmations = t.confirmations;
  vin = elim t.vin [ none ↦ none | some vins ↦ some (map clear_sig vins) ];
  body = t.body;
}

abbrev pub QueryOutcome : Type 0
QueryOutcome = Response (String × QueriedTrx) × List QueryRow

-- `query` is a plug-in's answer, none for "", or what it raises; for ETH, of the pair of both parts.
module _ (sim_btc_plugin : List String) (query : Plugin → String → Result (Option QueriedTrx)) where
  unfoldable pub store_query :
      String → String → Plugin → Option QueriedTrx → List QueryRow → QueryOutcome
  store_query chain trxid p none rows = (failed "Cannot query transaction.", rows)
  store_query chain trxid p (some t) rows =
      let result = clear_script_sigs t in
      (
        answer (chain, result),
        if is_cache p t
            then rows ++ record { chain_id = chain; trxid = trxid; result = result } ∷ []
            else rows,
      )

  unfoldable pub query_with : String → String → Option Plugin → List QueryRow → Result QueryOutcome
  query_with chain trxid none rows = ok (invalid_chainid_type chain, rows)
  query_with chain trxid (some p) rows =
      query p trxid >>= λ t. ok (store_query chain trxid p t rows)

  unfoldable pub zchain_trans_query_trx : Arg String → String → List QueryRow → Result QueryOutcome
  zchain_trans_query_trx mistyped trxid rows = ok (attribute_error, rows)
  zchain_trans_query_trx (given chain) trxid rows = elim (find_query (lower chain) trxid rows) [
    | some r ↦ ok (answer (lower chain, r.result), rows)
    | none ↦
        query_with (lower chain) trxid (any_plugin sim_btc_plugin (lower chain) (lower chain)) rows
  ]
