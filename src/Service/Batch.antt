-- ===== src/Service/Batch.antt =====
-- `Zchain.Trans.queryTransBatch` (service/sim_api.py, the second `zchain_trans_queryTrx`): many
-- transactions at once, through the cache that queryTrans uses too.
pub mod Laws
use cross_chain_mid_ware.Base.{
  ℕ, zero, suc, ◌+◌, ◌-◌, String, Bool, true, false, ◌&&◌, Option, none, some, List, [], ◌∷◌, ◌++◌,
  str_eq, ltb, length, if◌then◌else◌,
}
use cross_chain_mid_ware.Base.Text.{lower, show, ◌<>◌}
use cross_chain_mid_ware.Base.Dict.{Dict, insert}
use cross_chain_mid_ware.Base.Result.{Result, ok, err, ◌>>=◌}
use cross_chain_mid_ware.Service.Interface.{
  Arg, given, mistyped, Response, answer, attribute_error, mismatched_parameter_type, Plugin,
  sim_btc, hc, usdt, btm, eth, any_plugin,
}
use cross_chain_mid_ware.Service.Query.{
  QueriedTrx, QueryRow, find_query, is_mined, clear_script_sigs,
}

-- Not without confirmations; no number of them will do.
abbrev pub is_seen : Option ℕ → Bool
is_seen none = true
is_seen (some n) = ltb 0 n

-- `is_cache` at the end of the branches.
unfoldable pub batch_cache : Plugin → QueriedTrx → Bool
batch_cache (sim_btc name) t = t.has_vout && is_seen t.confirmations
batch_cache usdt t = false
batch_cache hc t = t.has_vout && is_mined t.vin
batch_cache btm t = false
batch_cache eth t = t.has_input

-- What the answer holds for an id: a result, or the number that stands in for one.
pub data BatchValue : Type 0 where
  found : QueriedTrx → BatchValue
  missing : ℕ → BatchValue

-- `res_data`, and the cache.
pub record Batch : Type 0 where
  pub res_data : Dict BatchValue
  pub rows : List QueryRow

unfoldable pub add_queried : String → String → Plugin → Option QueriedTrx → Batch → Batch
unfolding batch_cache clear_script_sigs insert
add_queried chain trxid p none b = b
add_queried chain trxid p (some t) b =
    let result = clear_script_sigs t in
    record {
      res_data = insert trxid (found result) b.res_data;
      rows =
          if batch_cache p t
          then b.rows ++ record { chain_id = chain; trxid = trxid; result = result } ∷ []
          else b.rows;
    }

-- The numbers for the ids without a result, from `i` on.
unfoldable pub add_missing : ℕ → ℕ → Dict BatchValue → Dict BatchValue
unfolding insert show
add_missing zero i d = d
add_missing (suc n) i d = add_missing n (i + 1) (insert ("000000" <> show i) (missing i) d)

abbrev pub BatchOutcome : Type 0
BatchOutcome = Response (String × Dict BatchValue) × List QueryRow

module _ (sim_btc_plugin : List String) (query : Plugin → String → Result (Option QueriedTrx)) where
  -- An id that is not in the cache; for a chain without a plug-in it is passed over.
  unfoldable pub query_one : String → String → Option Plugin → Batch → Result Batch
  unfolding add_queried
  query_one chain trxid none b = ok b
  query_one chain trxid (some p) b = query p trxid >>= λ t. ok (add_queried chain trxid p t b)

  unfoldable pub use_cached : String → String → Option QueryRow → Batch → Result Batch
  unfolding query_one insert
  use_cached chain trxid (some r) b =
      ok (record b { res_data = insert trxid (found r.result) b.res_data })
  use_cached chain trxid none b = query_one chain trxid (any_plugin sim_btc_plugin chain chain) b

  unfoldable pub query_ids : String → List String → Batch → Result Batch
  unfolding use_cached find_query
  query_ids chain [] b = ok b
  query_ids chain (trxid ∷ ids) b =
      use_cached chain trxid (find_query chain trxid b.rows) b >>= λ b'. query_ids chain ids b'

  unfoldable pub batch_answer : String → List String → Batch → BatchOutcome
  unfolding add_missing
  batch_answer chain ids b =
      (answer (chain, add_missing (length ids - length b.res_data) 0 b.res_data), b.rows)

  unfoldable pub zchain_trans_query_trx_batch :
      Arg String → Arg (List String) → List QueryRow → Result BatchOutcome
  unfolding query_ids batch_answer lower
  zchain_trans_query_trx_batch mistyped trxids rows = ok (attribute_error, rows)
  zchain_trans_query_trx_batch (given chain) mistyped rows =
      ok (mismatched_parameter_type "trxids" "LIST", rows)
  zchain_trans_query_trx_batch (given chain) (given trxids) rows =
      query_ids (lower chain) trxids (record { res_data = []; rows = rows }) >>= λ b.
      ok (batch_answer (lower chain) trxids b)
