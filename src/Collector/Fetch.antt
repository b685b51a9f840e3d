-- ===== src/Collector/Fetch.antt =====
-- `collect_block` (btc_data_collector/collect_btc_block.py): a block of a number, from the wallet
-- node's answers, as a `BlockInfoBtc` (btc_data_collector/block_btc.py).
use mathlib.Core.Path.{subst}
use cross_chain_mid_ware.Base.{
  ℕ, ◌≡◌, String, Option, List, str_eq, if◌then◌else◌, Bool-cases, inl, inr,
}
use cross_chain_mid_ware.Base.Result.{
  Result, ok, rpc_error, ◌>>=◌, from_option, ok-injective, >>=-eq-ok,
}
use cross_chain_mid_ware.Collector.Store.{BlockResult, BlockInfo, from_block_resp}

-- A block as BTM's node answers `get-block`.
pub record BtmBlock (Tx : Type 0) : Type 0 where
  pub hash : String
  pub height : ℕ
  pub size : ℕ
  pub previous_block_hash : String
  pub transaction_merkle_root : String
  pub transactions : List Tx

unfoldable pub from_block_resp_btm : {Tx : Type 0} → BtmBlock Tx → BlockInfo Tx
from_block_resp_btm r = record {
  block_id = r.hash;
  block_num = r.height;
  block_size = r.size;
  previous = r.previous_block_hash;
  trx_digest = r.transaction_merkle_root;
  transactions = r.transactions;
}

-- The wallet node's answers; none where the result is null.
pub record BlockNode (Tx : Type 0) : Type 0 where
  pub name : String
  pub get_block_btm : ℕ → Option (BtmBlock Tx)
  pub get_block_hash : ℕ → Option String
  pub get_block : String → Option (BlockResult Tx)

unfoldable pub collect_block : {Tx : Type 0} → BlockNode Tx → ℕ → Result (BlockInfo Tx)
collect_block node n =
    if str_eq node.name "BTM"
    then (from_option rpc_error (node.get_block_btm n) >>= λ r. ok (from_block_resp_btm r))
    else from_option rpc_error (node.get_block_hash n) >>= λ hash.
        from_option rpc_error (node.get_block hash) >>= λ r. ok (from_block_resp r)

-- The node's block for a number, or for the hash that it gives for the number, has that number.
pub record IsConsistent {Tx : Type 0} (node : BlockNode Tx) : Type 0 where
  pub of_number :
      (n : ℕ) (r : BtmBlock Tx) → from_option rpc_error (node.get_block_btm n) ≡ ok r → r.height ≡ n
  pub of_hash :
      (n : ℕ) (hash : String) (r : BlockResult Tx)
      → from_option rpc_error (node.get_block_hash n) ≡ ok hash
      → from_option rpc_error (node.get_block hash) ≡ ok r
      → r.height ≡ n

-- From a node that gives for each number a block of that number, the block that is collected for a
-- number has that number, on BTM and on the other chains.
collect_block-block_num :
    {Tx : Type 0} (node : BlockNode Tx) (n : ℕ) (b : BlockInfo Tx)
    → IsConsistent node
    → collect_block node n ≡ ok b
    → b.block_num ≡ n
unfolding collect_block from_block_resp from_block_resp_btm
collect_block-block_num node n b node_ok h = elim (Bool-cases (str_eq node.name "BTM")) [
  | inl e ↦
      let (r, h1, h2) = >>=-eq-ok (from_option rpc_error (node.get_block_btm n)) _ (rw e at h) in
      subst (λ c. c.block_num ≡ n) (ok-injective h2) (node_ok.of_number n r h1)
  | inr e ↦
      let (hash, h1, h2) =
        >>=-eq-ok (from_option rpc_error (node.get_block_hash n)) _ (rw e at h) in
      let (r, h3, h4) = >>=-eq-ok (from_option rpc_error (node.get_block hash)) _ h2 in
      subst (λ c. c.block_num ≡ n) (ok-injective h4) (node_ok.of_hash n hash r h1 h3)
]
