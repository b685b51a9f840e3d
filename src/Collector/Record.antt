-- ===== src/Collector/Record.antt =====
-- The end of `collect_pretty_transaction` (btc_data_collector/collect_btc_block.py): the type of a
-- transaction after both passes, and the deposits and withdrawals that are recorded for it. The
-- function for BTM ends in the same way, with another text for an amount.
pub mod Laws
pub mod Paid
use cross_chain_mid_ware.Base.{
  ℕ, String, Bool, true, false, ◌&&◌, ◌||◌, not, Option, none, some, List, [], ◌∷◌, ◌++◌, map,
  str_eq, length, ◌==◌, if◌then◌else◌,
}
use cross_chain_mid_ware.Base.Text.{lower}
use cross_chain_mid_ware.Base.Dict.{Dict}
use cross_chain_mid_ware.Base.DictOrder.{DictOrder}
use cross_chain_mid_ware.Base.Result.{Result, ok, err, index_error, ◌>>=◌}
use cross_chain_mid_ware.Collector.Scan.{Scan}

-- `trx_data['type']`: 0, 1 and 2, and -3, -1 and -2 for the invalid ones.
pub data TrxType : Type 0 where
  hot_cold withdraw deposit : TrxType
  invalid_hot_cold invalid_withdraw invalid_deposit : TrxType

-- `none` where there is nothing to record.
unfoldable pub trx_type : Scan → Option TrxType
trx_type s =
    if not (str_eq s.multisig_in "") && not (str_eq s.multisig_out "")
    then (if not s.is_valid then some invalid_hot_cold else some hot_cold)
    else if not (str_eq s.multisig_in "")
    then (if not s.is_valid then some invalid_withdraw else some withdraw)
    else if not (str_eq s.multisig_out "")
    then (if not s.is_valid || not (length s.in_set == 1)
        then some invalid_deposit
        else some deposit)
    else none

-- A record of `b_deposit_transaction` or `b_withdraw_transaction`.
pub record Transfer : Type 0 where
  pub txid : String
  pub from_account : String
  pub to_account : String
  pub amount : String
  pub asset_symbol : String
  pub block_num : ℕ
  pub chain_id : String

-- `deposit_transaction_cache` and `withdraw_transaction_cache` of a `CacheManager`.
pub record Transfers : Type 0 where
  pub deposits : List Transfer
  pub withdraws : List Transfer

-- `d.keys()[0]` and `d.values()[0]`
abbrev pub first_item : Dict ℕ → Result (String × ℕ)
first_item [] = err index_error
first_item (kv ∷ rest) = ok kv

module _ (order : DictOrder ℕ) (amount_text : ℕ → String) (asset_symbol : String) where
  abbrev pub transfer : String → ℕ → String → String → ℕ → Transfer
  transfer txid block_num from to v = record {
    txid = txid;
    from_account = from;
    to_account = to;
    amount = amount_text v;
    asset_symbol = asset_symbol;
    block_num = block_num;
    chain_id = lower asset_symbol;
  }

  unfoldable pub deposit_of : String → ℕ → Scan → Result Transfer
  deposit_of txid block_num s = do
    from ← first_item (order.items s.in_set)
    out ← first_item (order.items s.out_set)
    ok (transfer txid block_num from.0 s.multisig_out out.1)

  unfoldable pub withdraws_of : String → ℕ → Scan → List Transfer
  withdraws_of txid block_num s =
      map (λ kv. transfer txid block_num s.multisig_in kv.0 kv.1) (order.items s.out_set)

  unfoldable pub record_deposit : String → ℕ → Scan → Transfers → Result Transfers
  record_deposit txid block_num s c = do
    d ← deposit_of txid block_num s
    ok (record c { deposits = c.deposits ++ d ∷ [] })

  unfoldable pub record_type : String → ℕ → Scan → Option TrxType → Transfers → Result Transfers
  record_type txid block_num s (some deposit) c = record_deposit txid block_num s c
  record_type txid block_num s (some hot_cold) c = record_deposit txid block_num s c
  record_type txid block_num s (some withdraw) c =
      ok (record c { withdraws = c.withdraws ++ withdraws_of txid block_num s })
  record_type txid block_num s _ c = ok c

  -- The transaction of the two passes `s`, recorded.
  unfoldable pub record_trx : String → ℕ → Scan → Transfers → Result Transfers
  record_trx txid block_num s c = record_type txid block_num s (trx_type s) c
