-- ===== src/Collector/Sync/Progress.antt =====
-- Runs of the collector of btc_data_collector/collect_btc_block.py that save a block.
use mathlib.Core.Path.{subst}
use cross_chain_mid_ware.Base.{
  ℕ, zero, suc, ◌+◌, ◌-◌, ◌≤◌, ◌<◌, ◌≡◌, refl, ap, ◌∙◌, String, true, false, none, some, [], ◌∷◌,
  arith, leb,
}
use cross_chain_mid_ware.Base.Text.{lower}
use cross_chain_mid_ware.Base.Dict.{lookup}
use cross_chain_mid_ware.Base.Result.{Result, ok}
use cross_chain_mid_ware.Collector.Record.{Transfers}
use cross_chain_mid_ware.Collector.Store.{
  BlockInfo, Db, FlushData, put_blocks, put_deposits, put_withdraws, put_config, flush_step,
  get_json_data, last_number, clear_last_garbage_data, clear_from,
}
use cross_chain_mid_ware.Collector.Store.Laws.{lookup-update_config}
use cross_chain_mid_ware.Collector.Sync.{
  no_transfers, System, process_blocks_round, collect_transactions, boot, fetch, take, flush, write,
  Reach, here, next,
}
use cross_chain_mid_ware.Collector.Sync.Expected.{Stamps}
use cross_chain_mid_ware.Collector.Sync.Once.{IsExact, boot-IsExact}

module _ {Tx : Type 0} (symbol : String) (fetch_block : ℕ → BlockInfo Tx)
    (collect_trx : Tx → ℕ → Transfers → Result Transfers) where
  -- Every transaction of every block is collected without an error.
  abbrev pub Collects : Type 0
  Collects =
      (k : ℕ)
      → (c : Transfers) × (collect_transactions symbol collect_trx (fetch_block k).transactions
            (fetch_block k).block_num no_transfers
          ≡ ok c)

module _ {Tx : Type 0} (symbol sync_key : String) (fetch_block : ℕ → BlockInfo Tx)
    (collect_trx : Tx → ℕ → Transfers → Result Transfers) where
  -- A collector with nothing in memory, that is to fetch block `p` next.
  abbrev idle : Db → ℕ → System Tx
  idle db p = record {
    db = db;
    last_sync_block_num = p;
    sync_status = true;
    queue = [];
    block_cache = [];
    transfers = no_transfers;
    flush_thread = none;
  }

  abbrev flushed : FlushData → Db → Db
  flushed d db = flush_step sync_key d put_config (
      flush_step sync_key d put_withdraws
        (flush_step sync_key d put_deposits (flush_step sync_key d put_blocks db)))

  abbrev data_of : ℕ → Transfers → FlushData
  data_of p c = record { blocks = get_json_data (fetch_block p) ∷ []; transfers = c }

  -- One block from the node into the database.
  one_block :
      {s : System Tx} (db : Db) (p latest : ℕ) (c : Transfers)
      → p < latest
      → collect_transactions symbol collect_trx
          (fetch_block p).transactions
          (fetch_block p).block_num
          no_transfers
        ≡ ok c
      → Reach symbol sync_key fetch_block collect_trx s (idle db p)
      → Reach symbol sync_key fetch_block collect_trx s (idle (flushed (data_of p c) db) (p + 1))
  unfolding process_blocks_round
  one_block {s} db p latest c h collected r =
      let behind : leb latest p ≡ false = ground arith in
      let fetched : Reach symbol sync_key fetch_block collect_trx s
          (record (idle db p) { queue = fetch_block p ∷ []; last_sync_block_num = p + 1 }) =
        subst (Reach symbol sync_key fetch_block collect_trx s) (rw behind refl)
          (next r (fetch (some latest))) in
      let taken = next fetched (take (fetch_block p) [] c refl refl collected) in
      let started = next taken (flush (λ e. cc) refl) in
      next
        (next
          (next (next started (write (data_of p c) put_blocks refl))
            (write (data_of p c) put_deposits refl))
          (write (data_of p c) put_withdraws refl))
        (write (data_of p c) put_config refl)

  flushed-saved :
      (db : Db) (p n : ℕ) (c : Transfers)
      → ((k : ℕ) → (fetch_block k).block_num ≡ k)
      → lookup sync_key db.b_config ≡ some n
      → lookup sync_key (flushed (data_of p c) db).b_config ≡ some p
  unfolding flush_step last_number get_json_data
  flushed-saved db p n c heights h =
      rw (heights p) (lookup-update_config sync_key n p db.b_config h)

  many_blocks :
      {s : System Tx} (db : Db) (p n k : ℕ)
      → ((k : ℕ) → (fetch_block k).block_num ≡ k)
      → Collects symbol fetch_block collect_trx
      → lookup sync_key db.b_config ≡ some n
      → Reach symbol sync_key fetch_block collect_trx s (idle db p)
      → (t : System Tx) × Reach symbol sync_key fetch_block collect_trx s t
        × (lookup sync_key t.db.b_config ≡ some (p + k))
  many_blocks db p n zero heights collects h r =
      let (c, collected) = collects p in
      (
        idle (flushed (data_of p c) db) (p + 1),
        one_block db p (p + 1) c (omega arith) collected r,
        flushed-saved db p n c heights h ∙ ap some (omega arith),
      )
  many_blocks db p n (suc k) heights collects h r =
      let (c, collected) = collects p in
      let (t, rest, saved) =
        many_blocks (flushed (data_of p c) db) (p + 1) p k heights collects
          (flushed-saved db p n c heights h) (one_block db p (p + 1) c (omega arith) collected r) in
      (t, rest, saved ∙ ap some (omega arith))

  -- From an exact database, where a collected transaction's transfers name its block and the chain, the node gives for every number a block of that number and no
  -- transaction of a block fails to be collected, the collector can come to a state in which any
  -- number `m` from the saved number `n` on is saved; the database is then exact, so that it holds
  -- the transfers of all blocks below `m`.
  pub boot-saves :
      Stamps symbol collect_trx
      → (db : Db) (n m : ℕ) → ((k : ℕ) → (fetch_block k).block_num ≡ k)
      → Collects symbol fetch_block collect_trx
      → IsExact symbol sync_key fetch_block collect_trx db
      → lookup sync_key db.b_config ≡ some n
      → n ≤ m
      → (t : System Tx) × Reach symbol sync_key fetch_block collect_trx
          (boot symbol sync_key fetch_block collect_trx db)
          t
        × (lookup sync_key t.db.b_config ≡ some m)
        × IsExact symbol sync_key fetch_block collect_trx t.db
  unfolding boot clear_last_garbage_data
  boot-saves stamps db n m heights collects exact at_n le =
      let cleared = clear_from (lower symbol) n db in
      let started : Reach symbol sync_key fetch_block collect_trx
          (boot symbol sync_key fetch_block collect_trx db) (idle cleared n) =
        rw at_n here in
      let (t, r, saved) = many_blocks cleared n n (m - n) heights collects at_n started in
      (
        t,
        r,
        saved ∙ ap some (omega arith),
        boot-IsExact symbol sync_key fetch_block collect_trx stamps db t heights exact r,
      )
