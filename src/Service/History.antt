-- ===== src/Service/History.antt =====
-- `Zchain.Transaction.All.History` (service/sim_api.py, the first `zchain_transaction_all_history`):
-- a client asks for the transactions recorded after a block, and asks again from the number in the
-- answer. Rows of one block come in an order that the database chooses; here it is the stored one.
pub mod Laws
pub mod Request
use cross_chain_mid_ware.Base.{
  ℕ, zero, suc, ◌+◌, ◌-◌, ◌*◌, ◌/◌, String, Bool, true, false, ◌&&◌, ◌||◌, Option, none, some, List,
  [], ◌∷◌, ◌++◌, str_eq, length, ltb, leb, ◌==◌, if◌then◌else◌,
}
use cross_chain_mid_ware.Base.Text.{lower, has_text}
use cross_chain_mid_ware.Base.Dict.{Dict, lookup}
use cross_chain_mid_ware.Collector.Record.{Transfer}

-- The collections that are read, and `b_config`.
pub record Tables : Type 0 where
  pub b_config : Dict ℕ
  pub b_deposit_transaction : List Transfer
  pub b_withdraw_transaction : List Transfer
  pub b_guardcall_transaction : List Transfer

-- `find({"chainId": chain, "blockNum": {"$gt": low, "$lte": high}})`
unfoldable pub between : String → ℕ → ℕ → List Transfer → List Transfer
between chain low high [] = []
between chain low high (t ∷ ts) =
    let rest = between chain low high ts in
    if str_eq t.chain_id chain && (ltb low t.block_num && leb t.block_num high)
    then t ∷ rest
    else rest

-- `find_one({"chainId": chain, "blockNum": {"$gt": low}})` is not None
unfoldable pub has_after : String → ℕ → List Transfer → Bool
has_after chain low [] = false
has_after chain low (t ∷ ts) =
    let rest = has_after chain low ts in
    if str_eq t.chain_id chain && ltb low t.block_num then true else rest

-- `sort("blockNum", pymongo.DESCENDING)`
unfoldable pub insert_newest : Transfer → List Transfer → List Transfer
insert_newest t [] = t ∷ []
insert_newest t (u ∷ us) =
    let rest = insert_newest t us in if ltb t.block_num u.block_num then u ∷ rest else t ∷ u ∷ us

unfoldable pub newest_first : List Transfer → List Transfer
newest_first [] = []
newest_first (t ∷ ts) = insert_newest t (newest_first ts)

-- The lists and numbers that the loop over the windows carries on; `block_num` is
-- `ret_temp['blockNum']`, which is not set at first.
pub record Found : Type 0 where
  pub deposit_trxs : List Transfer
  pub withdraw_trxs : List Transfer
  pub guardcall_trxs : List Transfer
  pub deposit_blocknum : ℕ
  pub withdraw_blocknum : ℕ
  pub guardcall_blocknum : ℕ
  pub trxs : List Transfer
  pub block_num : Option ℕ

abbrev pub nothing_found : Option ℕ → Found
nothing_found b = record {
  deposit_trxs = [];
  withdraw_trxs = [];
  guardcall_trxs = [];
  deposit_blocknum = 0;
  withdraw_blocknum = 0;
  guardcall_blocknum = 0;
  trxs = [];
  block_num = b;
}

abbrev pub max : ℕ → ℕ → ℕ
max a b = if ltb a b then b else a

-- `if len(trxs) > 0: num = trxs[0]['blockNum']`
abbrev pub first_block : List Transfer → ℕ → ℕ
first_block [] num = num
first_block (t ∷ ts) num = t.block_num

-- `chainIdLower == "eth" or "erc" in chainIdLower`
abbrev pub is_eth : String → Bool
is_eth chain = str_eq chain "eth" || has_text "erc" chain

-- Only ETH has guard calls.
abbrev pub guardcalls : Tables → String → List Transfer
guardcalls db chain = if is_eth chain then db.b_guardcall_transaction else []

module _ (db : Tables) (chain : String) (block_num dep_num : ℕ) where
  abbrev pub window : ℕ → List Transfer → List Transfer
  window i rows =
      newest_first (between chain (block_num + i * dep_num) (block_num + (i + 1) * dep_num) rows)

  -- The body of the loop, for window `i`.
  unfoldable pub read_window : ℕ → Found → Found
  read_window i f =
      let deposits = f.deposit_trxs ++ window i db.b_deposit_transaction in
      let withdraws = f.withdraw_trxs ++ window i db.b_withdraw_transaction in
      let guards = f.guardcall_trxs ++ window i (guardcalls db chain) in
      let d = first_block deposits f.deposit_blocknum in
      let w = first_block withdraws f.withdraw_blocknum in
      let g = first_block guards f.guardcall_blocknum in
      record {
        deposit_trxs = deposits;
        withdraw_trxs = withdraws;
        guardcall_trxs = guards;
        deposit_blocknum = d;
        withdraw_blocknum = w;
        guardcall_blocknum = g;
        trxs = f.trxs ++ deposits ++ withdraws ++ guards;
        block_num = some (max (max (max d w) g) block_num);
      }

  -- `rounds` more windows from window `i`, up to the first with a transaction.
  unfoldable pub read_windows : ℕ → ℕ → Found → Found
  read_windows zero i f = f
  read_windows (suc rounds) i f =
      let f' = read_window i f in
      let rest = read_windows rounds (i + 1) f' in if ltb 0 (length f'.trxs) then f' else rest

  -- `range((current_block_num - blockNum) / dep_num + 1)`, where the division rounds down.
  unfoldable pub window_count : ℕ → ℕ
  window_count current = if ltb current block_num then 0 else (current - block_num) / dep_num + 1

  -- The answer's `blockNum`, where it is set, and its `data`.
  unfoldable pub history_from : ℕ → Option ℕ × List Transfer
  history_from current =
      if has_after chain block_num db.b_withdraw_transaction
        || has_after chain block_num db.b_deposit_transaction
        || has_after chain block_num (guardcalls db chain)
      then (let f = read_windows (window_count current) 0 (nothing_found none) in
          (f.block_num, f.trxs))
      else (some block_num, [])
