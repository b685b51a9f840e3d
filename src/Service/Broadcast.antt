-- ===== src/Service/Broadcast.antt =====
-- `Zchain.Trans.broadcastTrx` (service/sim_api.py, `zchain_trans_broadcastTrx`): a transaction is
-- handed to the wallet node, unless the collection `b_broadcast_trans_cache` has its answer of the
-- last ten seconds.
pub mod Laws
use cross_chain_mid_ware.Base.{
  ℕ, ◌+◌, ◌*◌, String, Bool, true, false, ◌&&◌, Option, none, some, List, [], ◌∷◌, ◌++◌, str_eq,
  ltb, if◌then◌else◌,
}
use cross_chain_mid_ware.Base.Text.{lower}
use cross_chain_mid_ware.Base.Result.{Result, ok, err}
use cross_chain_mid_ware.Service.Interface.{
  Arg, given, mistyped, Response, answer, mismatched_parameter_type, invalid_chainid_type, failed,
  Plugin, any_plugin,
}

-- A record of `b_broadcast_trans_cache`.
pub record BroadcastRow : Type 0 where
  pub chain_id : String
  pub trx : String
  pub effective_time : ℕ
  pub result : Option String

-- The collection, and the global `last_clean_broadcast_cache_time`.
pub record BroadcastState : Type 0 where
  pub b_broadcast_trans_cache : List BroadcastRow
  pub last_clean_broadcast_cache_time : ℕ

-- `find_one({"chainId": chain, "trx": id, "effectiveTime": {"$gt": now - 10}})`
unfoldable pub find_recent : String → String → ℕ → List BroadcastRow → Option BroadcastRow
find_recent chain id now [] = none
find_recent chain id now (r ∷ rs) =
    let rest = find_recent chain id now rs in
    if str_eq r.chain_id chain && str_eq r.trx id && ltb now (r.effective_time + 10)
    then some r
    else rest

-- `delete_many({"effectiveTime": {"$lt": now - 10}})`
unfoldable pub delete_old : ℕ → List BroadcastRow → List BroadcastRow
delete_old now [] = []
delete_old now (r ∷ rs) =
    let rest = delete_old now rs in if ltb (r.effective_time + 10) now then rest else r ∷ rest

-- The answer from a result: "" when the wallet node refuses, and none for BTM without a status.
abbrev pub broadcast_answer : String → Option String → Response (String × Option String)
broadcast_answer chain none = answer (chain, none)
broadcast_answer chain (some result) =
    if str_eq result ""
    then failed "Cannot broadcast transactions."
    else answer (chain, some result)

-- The answer or what is raised, the new state, and how often the wallet node was asked.
abbrev pub Outcome : Type 0
Outcome = Result (Response (String × Option String)) × BroadcastState × ℕ

-- `broadcast` is what a plug-in returns, or the exception that it raises.
module _ (md5 : String → String) (sim_btc_plugin : List String)
    (broadcast : Plugin → String → Result (Option String)) where
  unfoldable pub store_broadcast :
      String → String → ℕ → Option String → BroadcastState → BroadcastState
  store_broadcast chain id now result s =
      let row : BroadcastRow = record {
        chain_id = chain;
        trx = id;
        effective_time = now;
        result = result;
      } in
      let rows = s.b_broadcast_trans_cache ++ row ∷ [] in
      if ltb (s.last_clean_broadcast_cache_time + 10 * 60) now
      then record {
        b_broadcast_trans_cache = delete_old now rows;
        last_clean_broadcast_cache_time = now;
      }
      else record s { b_broadcast_trans_cache = rows }

  -- An exception of the plug-in leaves the handler before anything is stored.
  unfoldable pub send_broadcast : String → String → ℕ → Option Plugin → BroadcastState → Outcome
  send_broadcast chain trx now none s = (ok (invalid_chainid_type chain), s, 0)
  send_broadcast chain trx now (some p) s = elim (broadcast p trx) [
    | err raised ↦ (err raised, s, 1)
    | ok result ↦
        (ok (broadcast_answer chain result), store_broadcast chain (md5 trx) now result s, 1)
  ]

  -- At time `now`; the source reads the clock anew at each use.
  unfoldable pub zchain_trans_broadcast_trx : Arg String → String → ℕ → BroadcastState → Outcome
  zchain_trans_broadcast_trx mistyped trx now s =
      (ok (mismatched_parameter_type "chainId" "STRING"), s, 0)
  zchain_trans_broadcast_trx (given chain) trx now s =
      elim (find_recent chain (md5 trx) now s.b_broadcast_trans_cache) [
        | some r ↦ (ok (broadcast_answer chain r.result), s, 0)
        | none ↦ send_broadcast chain trx now (any_plugin sim_btc_plugin chain (lower chain)) s
      ]
