-- ===== src/Usdt/Fetch.antt =====
-- How blocks are fetched and taken (`process_blocks` and `do_collect_app` of
-- omni_data_collector/omni_data_collector/collect_usdt_block.py): a round fetches some blocks at
-- once, each in a greenlet of its own, and puts them into the queue if it has got all of them; the
-- main loop takes them out. Waiting is left out.
pub mod Laws
use cross_chain_mid_ware.Base.{
  ℕ, zero, suc, ◌+◌, ◌-◌, String, Bool, true, false, ◌&&◌, ◌||◌, Option, none, some, List, [], ◌∷◌,
  ◌++◌, str_eq, length, ltb, leb, ◌==◌, if◌then◌else◌,
}
use cross_chain_mid_ware.Base.Result.{Result, ok, err, type_error, ◌>>=◌, from_option}
use cross_chain_mid_ware.Collector.Store.{BlockInfo}
use cross_chain_mid_ware.Usdt.Classify.{OmniTrx, UsdtCaches, collect_usdt}

-- The ids of a block's Omni transactions, from the node; none where the result is null.
abbrev pub ListTransactions : Type 0
ListTransactions = ℕ → Option (List String)

unfoldable pub from_onmi_list_transaction : ℕ → List String → BlockInfo String
from_onmi_list_transaction n transactions = record {
  block_id = "";
  block_num = n;
  block_size = 0;
  previous = "";
  trx_digest = "";
  transactions = transactions;
}

-- The number of the latest block to fetch, from the node's answer and the configured number of safe
-- blocks. Where the source's difference is below 0 there is nothing to fetch either.
unfoldable pub usdt_latest_block_num : Option ℕ → Option ℕ → Option ℕ
usdt_latest_block_num none safe = none
usdt_latest_block_num (some real) none = some (real - 6)
usdt_latest_block_num (some real) (some safe) = some (real - safe)

-- A block in front of the others, if it could be had.
abbrev pub add_block : ℕ → Option (List String) → List (BlockInfo String) → List (BlockInfo String)
add_block n none rest = rest
add_block n (some ids) rest = from_onmi_list_transaction n ids ∷ rest

-- `collect_block_and_cache` for `count` blocks from `n` on: a block whose greenlet raises is missing.
unfoldable pub collect_blocks : ListTransactions → ℕ → ℕ → List (BlockInfo String)
unfolding from_onmi_list_transaction
collect_blocks list zero n = []
collect_blocks list (suc count) n = add_block n (list n) (collect_blocks list count (n + 1))

-- `CollectBlockThread` and the queue.
pub record Fetcher : Type 0 where
  pub last_sync_block_num : ℕ
  pub sync_status : Bool
  pub queue : List (BlockInfo String)

-- `COLLECT_THREAD` blocks, or one near the end.
unfoldable pub collect_thread_count : ℕ → ℕ → ℕ → ℕ
collect_thread_count threads latest last = if ltb threads (latest - last) then threads else 1

-- The blocks of a round. Where some are missing, the message of the error log adds a number to a text,
-- which raises before `last_sync_block_num` is set back: the handler waits and goes on with the loop.
unfoldable pub fetch_blocks : ListTransactions → ℕ → Fetcher → Fetcher
unfolding collect_blocks
fetch_blocks list count s =
    let datas = collect_blocks list count s.last_sync_block_num in
    let moved = s.last_sync_block_num + count in
    if length datas == count
    then record s { last_sync_block_num = moved; queue = s.queue ++ datas }
    else record s { last_sync_block_num = moved }

-- One round of the loop of `process_blocks`.
unfoldable pub usdt_round : ℕ → ListTransactions → Option ℕ → Fetcher → Fetcher
unfolding fetch_blocks collect_thread_count
usdt_round threads list none s = record s { sync_status = false }
usdt_round threads list (some latest) s =
    if leb latest s.last_sync_block_num
    then record s { sync_status = false }
    else if ltb 10 (length s.queue)
    then s
    else fetch_blocks list (collect_thread_count threads latest s.last_sync_block_num) s

-- What happens to the queue: a round, with what the node answers in it, or a block taken out.
pub data Event : Type 0 where
  round : Option ℕ → ListTransactions → Event
  take : Event

unfoldable pub take_first : List (BlockInfo String) → List (BlockInfo String)
take_first [] = []
take_first (b ∷ bs) = bs

unfoldable pub run_events : ℕ → List Event → Fetcher → Fetcher
unfolding usdt_round take_first
run_events threads [] s = s
run_events threads (round latest list ∷ es) s =
    run_events threads es (usdt_round threads list latest s)
run_events threads (take ∷ es) s = run_events threads es (record s { queue = take_first s.queue })

-- The transactions of a block, with the node's answers about them. Those of block 0 are skipped; one
-- that the node does not know raises.
unfoldable pub usdt_transactions :
    (String → Option OmniTrx)
    → (String → Bool)
    → ℕ
    → List String
    → ℕ
    → UsdtCaches
    → Result UsdtCaches
unfolding collect_usdt
usdt_transactions get is_multisig target [] n c = ok c
usdt_transactions get is_multisig target (id ∷ ids) n c =
    if n == 0
    then usdt_transactions get is_multisig target ids n c
    else from_option type_error (get id) >>= λ x.
        collect_usdt "USDT" is_multisig target x n c >>= λ c'.
        usdt_transactions get is_multisig target ids n c'
