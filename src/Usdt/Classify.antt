-- ===== src/Usdt/Classify.antt =====
-- `collect_pretty_transaction` (omni_data_collector/omni_data_collector/collect_usdt_block.py): what
-- is recorded for a transaction of the Omni layer. Amounts and fees are counted in units of 1e-8,
-- which the node gives as decimal texts.
pub mod Laws
use cross_chain_mid_ware.Base.{
  ℕ, String, Bool, true, false, ◌&&◌, ◌||◌, not, Option, none, some, List, [], ◌∷◌, ◌++◌, map,
  str_eq, length, ◌==◌, if◌then◌else◌,
}
use cross_chain_mid_ware.Base.Text.{lower}
use cross_chain_mid_ware.Base.Dict.{Dict, insert}
use cross_chain_mid_ware.Base.Result.{Result, ok, err, key_error, ◌>>=◌, from_option}
use cross_chain_mid_ware.Collector.Amount.{fixed8}
use cross_chain_mid_ware.Collector.Record.{
  TrxType, hot_cold, withdraw, deposit, invalid_hot_cold, invalid_withdraw, invalid_deposit,
}

-- One payment of a "send all" transaction.
pub record Subsend : Type 0 where
  pub propertyid : ℕ
  pub amount : ℕ

-- The answer of `omni_gettransaction`; none for a key that is missing.
pub record OmniTrx : Type 0 where
  pub txid : String
  pub type_int : Option ℕ
  pub amount : Option ℕ
  pub propertyid : Option ℕ
  pub ecosystem : Option String
  pub subsends : Option (List Subsend)
  pub sendingaddress : String
  pub referenceaddress : String
  pub valid : Bool
  pub fee : ℕ

-- The amount of the last payment of the property.
unfoldable pub subsend_value : ℕ → List Subsend → Option ℕ → Option ℕ
subsend_value target [] value = value
subsend_value target (d ∷ ds) value =
    subsend_value target ds (if d.propertyid == target then some d.amount else value)

unfoldable pub simple_value : ℕ → Option ℕ → ℕ → Option ℕ
simple_value target none value = none
simple_value target (some propertyid) value = if propertyid == target then some value else none

unfoldable pub send_all_value : ℕ → Option String → Option (List Subsend) → Option ℕ
unfolding subsend_value
send_all_value target none subsends = none
send_all_value target (some ecosystem) none = none
send_all_value target (some ecosystem) (some subsends) =
    if str_eq ecosystem "main" then subsend_value target subsends none else none

-- The amount of the property that a transaction moves; none where the function returns early.
unfoldable pub omni_value : ℕ → OmniTrx → Result (Option ℕ)
unfolding simple_value send_all_value
omni_value target x = elim x.type_int [
  | none ↦ ok none
  | some type_int ↦
      if type_int == 0
      then (from_option (key_error "amount") x.amount >>= λ value.
          ok (simple_value target x.propertyid value))
      else ok (if type_int == 4 then send_all_value target x.ecosystem x.subsends else none)
]

-- A row of the caches.
pub record UsdtRow : Type 0 where
  pub txid : String
  pub from_account : String
  pub to_account : String
  pub amount : String
  pub fee : String
  pub asset_symbol : String
  pub block_num : ℕ
  pub chain_id : String

pub record UsdtCaches : Type 0 where
  pub deposits : List UsdtRow
  pub withdraws : List UsdtRow

-- What both passes of the other collectors find out, here from one sender and one receiver.
pub record UsdtScan : Type 0 where
  pub value : ℕ
  pub in_set : Dict ℕ
  pub out_set : Dict ℕ
  pub multisig_in : String
  pub multisig_out : String

unfoldable pub usdt_scan : (String → Bool) → OmniTrx → ℕ → UsdtScan
unfolding insert
usdt_scan is_multisig x value = record {
  value = value;
  in_set = insert x.sendingaddress value [];
  out_set = insert x.referenceaddress value [];
  multisig_in = if is_multisig x.sendingaddress then x.sendingaddress else "";
  multisig_out = if is_multisig x.referenceaddress then x.referenceaddress else "";
}

-- `none` where there is nothing to record.
unfoldable pub usdt_type : Bool → UsdtScan → Option TrxType
usdt_type valid s =
    if not (str_eq s.multisig_in "") && not (str_eq s.multisig_out "")
    then (if not valid then some invalid_hot_cold else some hot_cold)
    else if not (str_eq s.multisig_in "")
    then (if not valid then some invalid_withdraw else some withdraw)
    else if not (str_eq s.multisig_out "")
    then (if not valid || not (length s.in_set == 1) then some invalid_deposit else some deposit)
    else none

module _ (asset_symbol : String) where
  unfoldable pub usdt_row : OmniTrx → ℕ → String → String → ℕ → UsdtRow
  unfolding fixed8 lower
  usdt_row x block_num from to value = record {
    txid = x.txid;
    from_account = from;
    to_account = to;
    amount = fixed8 value;
    fee = fixed8 x.fee;
    asset_symbol = asset_symbol;
    block_num = block_num;
    chain_id = lower asset_symbol;
  }

  unfoldable pub add_deposit : OmniTrx → ℕ → UsdtScan → UsdtCaches → UsdtCaches
  unfolding usdt_row
  add_deposit x block_num s c = record c {
    deposits = c.deposits ++ usdt_row x block_num x.sendingaddress s.multisig_out s.value ∷ [];
  }

  unfoldable pub add_withdraws : OmniTrx → ℕ → UsdtScan → UsdtCaches → UsdtCaches
  unfolding usdt_row
  add_withdraws x block_num s c = record c {
    withdraws =
        c.withdraws ++ map (λ kv. usdt_row x block_num s.multisig_in kv.0 s.value) s.out_set;
  }

  unfoldable pub record_usdt : OmniTrx → ℕ → UsdtScan → Option TrxType → UsdtCaches → UsdtCaches
  unfolding add_deposit add_withdraws
  record_usdt x block_num s (some deposit) c = add_deposit x block_num s c
  record_usdt x block_num s (some hot_cold) c = add_deposit x block_num s c
  record_usdt x block_num s (some withdraw) c = add_withdraws x block_num s c
  record_usdt x block_num s _ c = c

  unfoldable pub record_value : (String → Bool) → OmniTrx → ℕ → Option ℕ → UsdtCaches → UsdtCaches
  unfolding usdt_scan usdt_type record_usdt
  record_value is_multisig x block_num none c = c
  record_value is_multisig x block_num (some value) c =
      let s = usdt_scan is_multisig x value in record_usdt x block_num s (usdt_type x.valid s) c

  -- The caches after a transaction, for the property `target`.
  unfoldable pub collect_usdt : (String → Bool) → ℕ → OmniTrx → ℕ → UsdtCaches → Result UsdtCaches
  unfolding omni_value record_value
  collect_usdt is_multisig target x block_num c =
      omni_value target x >>= λ value. ok (record_value is_multisig x block_num value c)
