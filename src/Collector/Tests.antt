-- ===== src/Collector/Tests.antt =====
-- Runs of the collector (btc_data_collector/collect_btc_block.py) on a chain of a few transactions,
-- and the theorems about it applied there.
use mathlib.Core.List.Perm
use mathlib.Core.Option
use mathlib.Core.List.{Perm}
use cross_chain_mid_ware.Collector.Record.Paid.{
  is_in, is_among, paid_to, NoneTwice, record_trx-payees,
}
use cross_chain_mid_ware.Collector.Scan.Spec.{first}
use cross_chain_mid_ware.Base.{
  ◌++◌, map, not, ◌&&◌, ℕ, ◌≡◌, ◌≢◌, ◌↔◌, refl, String, true, false, none, some, List, [], ◌∷◌,
  length,
}
use cross_chain_mid_ware.Base.Text.{lower, show, zeros, len, prefix, suffix}
use cross_chain_mid_ware.Base.Dict.{has_key, add_to}
use cross_chain_mid_ware.Base.DictOrder.{DictOrder}
use cross_chain_mid_ware.Base.Double.{nearest, round_even, grow, shrink}
use cross_chain_mid_ware.Base.Result.{ok}
use cross_chain_mid_ware.Collector.Amount.{fixed8, to_btm_precision_str, precision_str}
use cross_chain_mid_ware.Base.Text.Decimal.{read_units}
use cross_chain_mid_ware.Collector.Amount.RoundTrip.{amounts-read}
use cross_chain_mid_ware.Collector.Scan.{
  Entry, Scan, start, elem, add_in, add_out, add_ins, add_outs,
}
use cross_chain_mid_ware.Collector.Scan.Spec.{
  scanned, totals, totals_onto, payments, links, all_same, scan_lem,
}
use cross_chain_mid_ware.Collector.Record.{
  Transfer, Transfers, deposit, withdraw, hot_cold, trx_type, transfer, record_trx, record_type,
  record_deposit, deposit_of, withdraws_of,
}
use cross_chain_mid_ware.Collector.Record.Laws.{trx_type-scanned}
use cross_chain_mid_ware.Collector.Trx.{
  Vout, spend, BaseTrx, Chain, get_vout_address, find_vout, search_in_trx, collect_input,
  collect_vin, collect_output, collect_vout, TrxData, trx_data, collect_pretty_transaction,
}
use cross_chain_mid_ware.Collector.Trx.Laws.{collect_pretty_transaction_lem}
use cross_chain_mid_ware.Collector.BtmTrx.{
  BtmTrx, native_asset, collect_in, collect_inputs, collect_out, collect_outputs,
  collect_pretty_transaction_btm,
}
use cross_chain_mid_ware.Collector.BtmTrx.Laws.{
  native_spends, native_payments, collect_pretty_transaction_btm_lem,
}
use cross_chain_mid_ware.Base.{◌==◌, ap, sym, ◌∙◌, arith, if◌then◌else◌}
use cross_chain_mid_ware.Base.Result.{from_option, rpc_error, ok-injective}
use cross_chain_mid_ware.Collector.Store.{BlockResult, from_block_resp}
use cross_chain_mid_ware.Collector.Fetch.{BlockNode, IsConsistent, collect_block}

abbrev pub as_listed : DictOrder ℕ
as_listed = record { items = λ d. d; items-perm = λ d u. Perm.refl d }

abbrev pub multisig : List String
multisig = "hot" ∷ "cold" ∷ []

no_empty : elem "" multisig ≡ false
unfolding elem
no_empty = refl

abbrev output : ℕ → ℕ → String → Vout
output n value address = record {
  n = n;
  value = value;
  script_type = "pubkeyhash";
  hex = "76a9";
  addresses = some (address ∷ []);
}

-- One earlier transaction, which pays a user and the hot wallet.
abbrev pub chain : Chain
chain = record {
  multisig_address = λ hex. hex;
  previous = λ txid. output 0 500000000 "user" ∷ output 1 300000000 "hot" ∷ [];
}

abbrev pub user_pays : BaseTrx
user_pays = record {
  txid = "t1";
  vin = spend "t0" 0 ∷ [];
  vout = output 0 450000000 "hot" ∷ output 1 49990000 "user" ∷ [];
}

abbrev pub paid : Transfer
paid = record {
  txid = "t1";
  from_account = "user";
  to_account = "hot";
  amount = "4.50000000";
  asset_symbol = "BTC";
  block_num = 1;
  chain_id = "btc";
}

abbrev pub deposited : Transfers
deposited = record { deposits = paid ∷ []; withdraws = [] }

abbrev nothing_yet : Transfers
nothing_yet = record { deposits = []; withdraws = [] }

abbrev pub found : TrxData
found = record {
  trxid = "t1";
  block_num = 1;
  vin = record { address = "user"; value = 500000000; index = 0; ref = "t0" } ∷ [];
  vout =
      record { address = "hot"; value = 450000000; index = 0; ref = "76a9" }
      ∷ record { address = "user"; value = 49990000; index = 1; ref = "76a9" }
      ∷ [];
  type = deposit;
}

pub user_pays_run :
    collect_pretty_transaction chain as_listed multisig "BTC" user_pays 1 nothing_yet
    ≡ ok (some found, deposited)
unfolding collect_pretty_transaction collect_vin collect_input get_vout_address find_vout
    search_in_trx add_in elem add_to collect_vout collect_output add_out has_key record_trx
    record_type record_deposit deposit_of trx_type fixed8 nearest round_even grow shrink lower show
    zeros len
user_pays_run = refl

abbrev entry : String → ℕ → Entry
entry a v = record { address = a; value = v; index = 0; ref = "" }

abbrev ins : List Entry
ins = entry "hot" 300 ∷ entry "hot" 200 ∷ []

abbrev outs : List Entry
outs = entry "user" 350 ∷ entry "hot" 100 ∷ entry "other" 40 ∷ []

scan_lem_example : add_outs multisig outs (add_ins multisig ins start) ≡ scanned multisig ins outs
scan_lem_example = scan_lem multisig no_empty ins outs

trx_type-scanned_example :
    let t = trx_type (scanned multisig ins outs) in
    let ls = links multisig ins in
    let ps = links multisig (payments (totals ins) outs) in
    ((t ≡ some deposit) ↔ ((ls ≡ []) × (length ps ≡ 1) × (length (totals ins) ≡ 1)))
    × ((t ≡ some withdraw) ↔ ((ls ≢ []) × (all_same ls ≡ true) × (ps ≡ [])))
    × ((t ≡ some hot_cold) ↔ ((ls ≢ []) × (all_same ls ≡ true) × (length ps ≡ 1)))
    × ((t ≡ none) ↔ ((ls ≡ []) × (ps ≡ [])))
trx_type-scanned_example = trx_type-scanned multisig no_empty ins outs

abbrev withdraw_scan : Scan
withdraw_scan = scanned multisig ins outs

abbrev withdrawn : Transfers
withdrawn = record {
  deposits = [];
  withdraws =
      transfer as_listed fixed8 "BTC" "t2" 1 "hot" "user" 350
      ∷ transfer as_listed fixed8 "BTC" "t2" 1 "hot" "other" 40
      ∷ [];
}

withdraw_run : record_trx as_listed fixed8 "BTC" "t2" 1 withdraw_scan nothing_yet ≡ ok withdrawn
unfolding record_trx record_type withdraws_of trx_type totals_onto payments links add_to has_key
    elem
withdraw_run = refl

some_links : links multisig ins ≢ []
unfolding links elem
some_links h = cc h

same_links : all_same (links multisig ins) ≡ true
unfolding links elem
same_links = refl

no_links : links multisig (payments (totals ins) outs) ≡ []
unfolding links payments totals_onto has_key add_to elem
no_links = refl

record_trx-payees_example :
    (withdrawn.deposits ≡ nothing_yet.deposits)
    × (payees : List String) × NoneTwice payees
    × ((a : String) → is_in a payees ≡ (is_among a outs && not (is_among a ins)))
    × Perm withdrawn.withdraws (
        nothing_yet.withdraws
        ++ map
            (λ a.
              transfer as_listed fixed8 "BTC" "t2" 1
                (first (links multisig ins))
                a
                (paid_to a outs))
            payees)
record_trx-payees_example =
    record_trx-payees multisig no_empty fixed8 "BTC" as_listed "t2" 1 ins outs nothing_yet withdrawn
      some_links same_links no_links withdraw_run

collect_pretty_transaction_lem_example :
    (es fs : List Entry) × (some found
      ≡ Option.map (trx_data "t1" 1 es fs) (trx_type (scanned multisig es fs)))
    × (record_trx as_listed fixed8 "BTC" "t1" 1 (scanned multisig es fs) nothing_yet ≡ ok deposited)
collect_pretty_transaction_lem_example =
    collect_pretty_transaction_lem chain as_listed multisig "BTC" user_pays 1 nothing_yet
      (some found, deposited) no_empty user_pays_run

abbrev pub btm_pays : BtmTrx
btm_pays = record {
  id = "b1";
  inputs =
      record {
        type = some "spend";
        address = some "user";
        asset_id = some native_asset;
        amount = 500000000;
      }
      ∷ [];
  outputs =
      record {
        type = some "control";
        address = some "hot";
        asset_id = some native_asset;
        amount = 450000000;
        position = 0;
        control_program = "0014";
      }
      ∷ record {
        type = some "control";
        address = some "hot";
        asset_id = some "token";
        amount = 7;
        position = 1;
        control_program = "0014";
      }
      ∷ [];
}

abbrev pub btm_paid : Transfer
btm_paid = record {
  txid = "b1";
  from_account = "user";
  to_account = "hot";
  amount = "4.50000000";
  asset_symbol = "BTM";
  block_num = 1;
  chain_id = "btm";
}

abbrev pub btm_found : TrxData
btm_found = record {
  trxid = "b1";
  block_num = 1;
  vin = record { address = "user"; value = 500000000; index = 0; ref = "" } ∷ [];
  vout =
      record { address = "hot"; value = 450000000; index = 0; ref = "0014" }
      ∷ record { address = "hot"; value = 7; index = 1; ref = "0014" }
      ∷ [];
  type = deposit;
}

abbrev pub btm_deposited : Transfers
btm_deposited = record { deposits = btm_paid ∷ []; withdraws = [] }

pub btm_run :
    collect_pretty_transaction_btm as_listed multisig "BTM" btm_pays 1 nothing_yet
    ≡ ok (some btm_found, btm_deposited)
unfolding collect_pretty_transaction_btm collect_inputs collect_in collect_outputs collect_out
    add_in elem add_to add_out has_key record_trx record_type record_deposit deposit_of trx_type
    to_btm_precision_str precision_str prefix suffix len lower show zeros
btm_run = refl

collect_pretty_transaction_btm_lem_example :
    record_trx as_listed to_btm_precision_str "BTM" "b1" 1
      (scanned multisig (native_spends btm_pays.inputs) (native_payments btm_pays.outputs))
      nothing_yet
    ≡ ok btm_deposited
collect_pretty_transaction_btm_lem_example =
    collect_pretty_transaction_btm_lem as_listed multisig "BTM" btm_pays 1 nothing_yet
      (some btm_found, btm_deposited) no_empty btm_run

-- A node with one block, of number 7.
abbrev genesis_result : BlockResult BaseTrx
genesis_result = record {
  hash = "h7";
  height = 7;
  size = 80;
  previousblockhash = "h6";
  merkleroot = "m";
  tx = user_pays ∷ [];
}

abbrev one_block_node : BlockNode BaseTrx
one_block_node = record {
  name = "BTC";
  get_block_btm = λ n. none;
  get_block_hash = λ n. if n == 7 then some "h7" else none;
  get_block = λ hash. some genesis_result;
}

height_seven :
    (n : ℕ) (hash : String)
    → from_option rpc_error (if n == 7 then some "h7" else none) ≡ ok hash
    → 7 ≡ n
height_seven n hash h = ground arith

one_block_node-IsConsistent : IsConsistent one_block_node
one_block_node-IsConsistent = record {
  of_number = λ n r h. cc;
  of_hash = λ n hash r h k. ap BlockResult.height (sym (ok-injective k)) ∙ height_seven n hash h;
}

fetched_run : collect_block one_block_node 7 ≡ ok (from_block_resp genesis_result)
unfolding collect_block
fetched_run = refl

amounts-read_example :
    (read_units 8 (fixed8 150000001) ≡ some 150000001)
    × (read_units 8 (to_btm_precision_str 150000001) ≡ some 150000001)
amounts-read_example = amounts-read 150000001 150000001 (omega arith)

-- Above 2 ^ 52 a text may be a unit off.
large_run : fixed8 7341447447556751 ≡ "73414474.47556750"
unfolding fixed8 nearest round_even grow shrink show zeros len
large_run = refl
