-- ===== src/Service/Tests.antt =====
-- Requests to the service (service/sim_api.py) on small databases, and the theorems about the
-- handlers applied there.
use mathlib.Core.List.{Perm}
use mathlib.Core.List.Perm
use cross_chain_mid_ware.Base.{
  ◌++◌, if◌then◌else◌, ℕ, ◌+◌, ◌<◌, ◌≡◌, ◌↔◌, refl, String, Bool, true, false, Option, some, none,
  List, [], ◌∷◌, str_eq, arith, sum_by, All,
}
use cross_chain_mid_ware.Base.Text.{lower, upper}
use cross_chain_mid_ware.Base.Result.{Result, ok, err, type_error, key_error, rpc_error}
use cross_chain_mid_ware.Collector.Record.{Transfer}
use cross_chain_mid_ware.Wallet.Select.{TxOut}
use cross_chain_mid_ware.Wallet.Interface.{Node, get_trx_out}
use cross_chain_mid_ware.Wallet.Outputs.{dest_amount}
use cross_chain_mid_ware.Service.Interface.{
  given, answer, elem, Plugin, sim_btc, hc, usdt, btm, eth, any_plugin, utxo_plugin, verify_plugin,
}
use cross_chain_mid_ware.Service.Broadcast.{
  BroadcastState, find_recent, send_broadcast, zchain_trans_broadcast_trx,
}
use cross_chain_mid_ware.Service.Broadcast.Laws.{IsRepeated, broadcast_trx-once}
use cross_chain_mid_ware.Service.Multisig.{Collections, collection_of, zchain_multisig_create}
use cross_chain_mid_ware.Service.Multisig.Laws.{IsRecorded, multisig_create-IsRecorded}
use cross_chain_mid_ware.Service.Verify.{Signed, zchain_crypt_verify_message}
use cross_chain_mid_ware.Service.Verify.Laws.{
  Verifies, verify_message-Verifies, verify_message-answer,
}
use cross_chain_mid_ware.Service.Create.{Backend, is_fast_of, create_trx}
use cross_chain_mid_ware.Service.Create.Laws.{Builds, create_trx-refuses}
use cross_chain_mid_ware.Service.Forward.{
  zchain_address_validate, Plugins, zchain_address_get_balance,
}
use cross_chain_mid_ware.Service.History.{
  Tables, history_from, has_after, window_count, read_windows, read_window, newest_first,
  insert_newest, between,
}
use cross_chain_mid_ware.Service.History.Laws.{Told, history_from-Told}
use cross_chain_mid_ware.Service.Records.{transaction_history}
use cross_chain_mid_ware.Service.Records.Laws.{
  IsNewestFirst, IsFrom, IsFirstBlock, transaction_history-rows,
}
use cross_chain_mid_ware.Service.Import.{ImportState, zchain_addr_importaddr}
use cross_chain_mid_ware.Service.Import.Laws.{importaddr-again}
use cross_chain_mid_ware.Service.Query.{
  QueriedTrx, QueryRow, find_query, clear_script_sigs, zchain_trans_query_trx,
}
use cross_chain_mid_ware.Service.Query.{QueryOutcome}
use cross_chain_mid_ware.Service.Batch.{
  found, missing, BatchOutcome, batch_cache, add_queried, add_missing, query_one, use_cached,
  query_ids, batch_answer, zchain_trans_query_trx_batch,
}
use cross_chain_mid_ware.Service.Batch.Laws.{IsSeen, queries-IsSeen}
use cross_chain_mid_ware.Base.Dict.{insert}
use cross_chain_mid_ware.Base.Text.{show}

abbrev coins : List String
coins = "btc" ∷ "ltc" ∷ "doge" ∷ []

abbrev digest : String → String
digest trx = trx

abbrev wallet : Plugin → String → Result (Option String)
wallet p trx = if str_eq trx "" then err rpc_error else ok (some "id")

abbrev no_broadcasts : BroadcastState
no_broadcasts = record { b_broadcast_trans_cache = []; last_clean_broadcast_cache_time = 0 }

first_sent :
    (zchain_trans_broadcast_trx digest coins wallet (given "btc") "0100" 5000 no_broadcasts).2 ≡ 1
unfolding zchain_trans_broadcast_trx find_recent any_plugin utxo_plugin elem send_broadcast
first_sent = refl

broadcast_trx-once_example :
    let o =
      zchain_trans_broadcast_trx digest coins wallet (given "btc") "0100" 5000 no_broadcasts in
    IsRepeated digest coins wallet "btc" "0100" 5009 no_broadcasts o
broadcast_trx-once_example =
    broadcast_trx-once digest coins wallet "btc" "0100" 5000 5009 no_broadcasts (omega arith)
      (omega arith) first_sent

-- A plug-in that raises: nothing is stored.
raised_run :
    zchain_trans_broadcast_trx digest coins wallet (given "btc") "" 5000 no_broadcasts
    ≡ (err rpc_error, no_broadcasts, 1)
unfolding zchain_trans_broadcast_trx find_recent any_plugin utxo_plugin elem send_broadcast
raised_run = refl

abbrev create : Plugin → List String → ℕ → Option (String × String)
create p addrs amount = some ("3address", "5221")

abbrev old_collections : Collections
old_collections =
    (
      "b_btc_multisig_address",
      record { address = "3address"; redeem_script = "old"; addr_type = 0 } ∷ [],
    )
    ∷ []

btc_known : utxo_plugin coins (lower "BTC") ≡ some (sim_btc "btc")
unfolding utxo_plugin elem lower
btc_known = refl

multisig_create-IsRecorded_example :
    IsRecorded
      (lower "BTC")
      (collection_of (lower "BTC") (sim_btc "btc"))
      (record { address = "3address"; redeem_script = "5221"; addr_type = 0 })
      old_collections
      (zchain_multisig_create coins create
        (given "BTC")
        (given ("k1" ∷ "k2" ∷ []))
        (given 2)
        old_collections)
multisig_create-IsRecorded_example =
    multisig_create-IsRecorded coins create "BTC" ("k1" ∷ "k2" ∷ []) 2 (sim_btc "btc") "3address"
      "5221" old_collections btc_known refl

abbrev verify : Plugin → Signed → Bool
verify p q = str_eq q.signature "good"

abbrev signed : Signed
signed = record { chain_id = "btc"; addr = "a"; message = "m"; signature = "good" }

btc_verifies : verify_plugin coins (lower "btc") ≡ some (sim_btc "btc")
unfolding verify_plugin elem lower
btc_verifies = refl

signed-Verifies : All (Verifies coins verify) (signed ∷ [])
unfolding verify_plugin elem
signed-Verifies = ((sim_btc "btc", refl, refl), tt)

verify_message-Verifies_example :
    All
      (Verifies coins verify)
      (zchain_crypt_verify_message coins verify (given "btc") "b" "m" "good" (signed ∷ [])).1
verify_message-Verifies_example =
    verify_message-Verifies coins verify (given "btc") "b" "m" "good" (signed ∷ []) signed-Verifies

verify_message-answer_example :
    (zchain_crypt_verify_message coins verify (given "btc") "a" "m" "good" (signed ∷ [])).0
    ≡ answer (lower "btc", true)
verify_message-answer_example =
    verify_message-answer coins verify "btc" "a" "m" "good" (sim_btc "btc") (signed ∷ [])
      signed-Verifies btc_verifies

abbrev node : Node
node = record {
  list_unspent = λ addr.
      some (some (record { amount = 700000; txid = "a"; vout = 0; script = "76a9" }) ∷ none ∷ []);
  create_raw = λ vins vouts. some "0200";
  decode_raw = λ hex. none;
}

node-Builds : Builds node
node-Builds vins vouts e = cc

abbrev backend : Backend
backend = record {
  sim_btc_plugin = coins;
  config = λ name. record { fee = 100000; per_fee = 10000; vin_size = 1600; vout_size = 80 };
  node = λ name. node;
  order = record { items = λ d. d; items-perm = λ d u. Perm.refl d };
  create_other = λ p from_addr dest_info. err type_error;
  is_fast_record = some "true";
}

ltc_known : elem (lower "LTC") coins ≡ true
unfolding elem lower
ltc_known = refl

ltc-ne-bch : str_eq (upper (lower "LTC")) "BCH" ≡ false
unfolding upper lower
ltc-ne-bch = refl

is_fast : is_fast_of (some "true") ≡ true
unfolding is_fast_of
is_fast = refl

create_trx-refuses_example :
    (create_trx backend true (given "LTC") "sender" (("payee", 650000) ∷ [])
      ≡ ok (answer (lower "LTC", none)))
    ↔ (sum_by TxOut.amount (get_trx_out node "sender")
        < dest_amount (("payee", 650000) ∷ []) + 100000)
create_trx-refuses_example =
    create_trx-refuses backend true "LTC" "sender" (("payee", 650000) ∷ []) ltc_known ltc-ne-bch
      is_fast (omega arith) node-Builds

abbrev row : ℕ → Transfer
row n = record {
  txid = "t";
  from_account = "a";
  to_account = "b";
  amount = "1.00000000";
  asset_symbol = "BTC";
  block_num = n;
  chain_id = "btc";
}

abbrev tables : Tables
tables = record {
  b_config = ("btcsyncblocknum", 6200) ∷ [];
  b_deposit_transaction = row 50 ∷ row 4300 ∷ row 4100 ∷ row 6100 ∷ [];
  b_withdraw_transaction = row 4200 ∷ [];
  b_guardcall_transaction = [];
}

-- The first window with a row is the fourth one.
history_run : history_from tables "btc" 100 1000 6200 ≡ (some 4100, row 4100 ∷ [])
unfolding history_from has_after window_count read_windows read_window newest_first insert_newest
    between
history_run = refl

-- A deposit of block 7 is stored and a withdrawal of it is not yet: the answer's number is 7, and
-- the withdrawal is in no later answer.
abbrev half_flushed : Tables
half_flushed = record tables { b_deposit_transaction = row 7 ∷ []; b_withdraw_transaction = [] }

abbrev flushed : Tables
flushed = record tables { b_deposit_transaction = row 7 ∷ []; b_withdraw_transaction = row 7 ∷ [] }

half_flushed_run :
    (history_from half_flushed "btc" 0 1000 6200 ≡ (some 7, row 7 ∷ []))
    × (history_from flushed "btc" 7 1000 6200 ≡ (some 7, []))
unfolding history_from has_after window_count read_windows read_window newest_first insert_newest
    between
half_flushed_run = (refl, refl)

history_from-Told_example :
    let told = history_from tables "btc" 100 1000 6200 in Told tables "btc" 100 1000 told.0 told.1
history_from-Told_example = history_from-Told tables "btc" 100 1000 6200 (omega arith)

transaction_history-rows_example :
    (n : ℕ) × (trxs : List Transfer) × (others : List Transfer) × (transaction_history
        tables.b_deposit_transaction
        (given "BTC")
        (given "a")
        (given 4200)
        (given 10)
      ≡ answer (lower "BTC", n, trxs))
    × Perm tables.b_deposit_transaction (trxs ++ others)
    × All (IsFrom (lower "BTC") 4200) trxs
    × All (λ t. ¬ IsFrom (lower "BTC") 4200 t) others
    × IsNewestFirst trxs
    × IsFirstBlock n trxs
transaction_history-rows_example =
    transaction_history-rows tables.b_deposit_transaction "BTC" "a" 4200 10

abbrev plugins : Plugins
plugins = record {
  sim_btc_plugin = coins;
  trx_out = λ p addr. ok [];
  decode = λ p trx_hex. ok "{}";
  combine = λ p transactions. ok "0300";
  is_valid = λ p addr. elim p as (λ _. Result (Option Bool)) [
    | btm ↦ err rpc_error
    | sim_btc name ↦ ok (some true)
    | hc ↦ ok (some true)
    | usdt ↦ ok (some true)
    | eth ↦ ok (some true)
  ];
  balance = λ p addr. ok "1.0";
  height = λ p. ok 7000000;
  eth_history = λ address first last. ok [];
  eth_trx = λ trxid. ok "{}";
  hc_sync_block_num = some 5;
  erc_chain_id_map = [];
}

-- BCH is not configured: the handler raises on the missing key.
missing_run : zchain_address_get_balance plugins "BCH" "a" ≡ err (key_error "bch")
unfolding zchain_address_get_balance elem lower
missing_run = refl

-- The plug-in of BTM raises what its node refuses.
refused_run : zchain_address_validate plugins (given "BTM") (given "a") ≡ err rpc_error
unfolding zchain_address_validate any_plugin utxo_plugin elem lower
refused_run = refl

abbrev nothing_imported : ImportState
nothing_imported = record { b_eths_address = []; imported = []; guard_addresses = [] }

importaddr-again_example :
    let first = zchain_addr_importaddr coins [] (given "ETH") "0x12erc" nothing_imported in
    let second = zchain_addr_importaddr coins [] (given "ETH") "0x12erc" first.1 in
    (second.0 ≡ first.0) × (second.1.b_eths_address ≡ first.1.b_eths_address)
importaddr-again_example = importaddr-again coins [] "ETH" "0x12erc" nothing_imported

abbrev mined : QueriedTrx
mined = record {
  has_vout = true;
  has_outputs = false;
  has_input = false;
  confirmations = some 8;
  vin = some (record { block_height = none; script_sig = "" } ∷ []);
  body = "{}";
}

abbrev query : Plugin → String → Result (Option QueriedTrx)
query p trxid = ok (some mined)

abbrev mined_row : QueryRow
mined_row = record { chain_id = "btc"; trxid = "t1"; result = mined }

-- One id twice: the second time it is in the cache, and a number fills the answer up.
batch_run :
    zchain_trans_query_trx_batch coins query (given "BTC") (given ("t1" ∷ "t1" ∷ [])) []
    ≡ ok (answer ("btc", ("t1", found mined) ∷ ("0000000", missing 0) ∷ []), mined_row ∷ [])
unfolding zchain_trans_query_trx_batch query_ids batch_answer add_missing use_cached query_one
    add_queried batch_cache find_query any_plugin utxo_plugin elem lower clear_script_sigs insert
    show
batch_run = refl

mined_row-IsSeen : IsSeen coins query mined_row
unfolding any_plugin utxo_plugin elem
mined_row-IsSeen = (sim_btc "btc", refl, (refl, λ m e. ground (arith, e)))

queries-IsSeen_example :
    ((r : QueryOutcome)
      → zchain_trans_query_trx coins query (given "BTC") "t2" (mined_row ∷ []) ≡ ok r
      → All (IsSeen coins query) r.1)
    × ((r : BatchOutcome)
        → zchain_trans_query_trx_batch coins query
            (given "BTC")
            (given ("t1" ∷ "t2" ∷ []))
            (mined_row ∷ [])
          ≡ ok r
        → All (IsSeen coins query) r.1)
queries-IsSeen_example =
    queries-IsSeen coins query (given "BTC") "t2" (given ("t1" ∷ "t2" ∷ [])) (mined_row ∷ [])
      (mined_row-IsSeen, tt)
