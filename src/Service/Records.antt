-- ===== src/Service/Records.antt =====
-- `Zchain.Transaction.Withdraw.History`, `Deposit.History` and `GuardCall.History`
-- (service/sim_api.py): the rows of one collection from a block on. `Zchain.Configuration.Set`, which
-- adds a row to `b_config`.
pub mod Laws
use cross_chain_mid_ware.Base.{
  ℕ, String, Bool, true, false, ◌&&◌, List, [], ◌∷◌, ◌++◌, str_eq, leb, if◌then◌else◌,
}
use cross_chain_mid_ware.Base.Text.{lower}
use cross_chain_mid_ware.Collector.Record.{Transfer}
use cross_chain_mid_ware.Service.Interface.{
  Arg, given, mistyped, Response, answer, attribute_error, mismatched_parameter_type,
}
use cross_chain_mid_ware.Service.History.{Tables, newest_first, first_block}

-- `find({"chainId": chain, "blockNum": {"$gte": low}})`
unfoldable pub rows_from : String → ℕ → List Transfer → List Transfer
rows_from chain low [] = []
rows_from chain low (t ∷ ts) =
    let rest = rows_from chain low ts in
    if str_eq t.chain_id chain && leb low t.block_num then t ∷ rest else rest

-- `chainId`, `blockNum` and `data` of the answer.
abbrev pub HistoryAnswer : Type 0
HistoryAnswer = String × ℕ × List Transfer

abbrev pub history_answer : String → List Transfer → HistoryAnswer
history_answer chain trxs = (chain, first_block trxs 0, trxs)

-- The three handlers on their collection `rows`; neither the account nor the limit is used.
unfoldable pub transaction_history :
    List Transfer → Arg String → Arg String → Arg ℕ → Arg ℕ → Response HistoryAnswer
transaction_history rows mistyped account block_num limit = attribute_error
transaction_history rows (given chain) mistyped block_num limit =
    mismatched_parameter_type "account" "STRING"
transaction_history rows (given chain) (given account) mistyped limit =
    mismatched_parameter_type "blockNum" "INTEGER"
transaction_history rows (given chain) (given account) (given low) mistyped =
    mismatched_parameter_type "limit" "INTEGER"
transaction_history rows (given chain) (given account) (given low) (given limit) =
    answer (history_answer (lower chain) (newest_first (rows_from (lower chain) low rows)))

unfoldable pub zchain_transaction_withdraw_history :
    Tables → Arg String → Arg String → Arg ℕ → Arg ℕ → Response HistoryAnswer
zchain_transaction_withdraw_history db = transaction_history db.b_withdraw_transaction

unfoldable pub zchain_transaction_deposit_history :
    Tables → Arg String → Arg String → Arg ℕ → Arg ℕ → Response HistoryAnswer
zchain_transaction_deposit_history db = transaction_history db.b_deposit_transaction

unfoldable pub zchain_transaction_guardcall_history :
    Tables → Arg String → Arg String → Arg ℕ → Arg ℕ → Response HistoryAnswer
zchain_transaction_guardcall_history db = transaction_history db.b_guardcall_transaction
