-- ===== src/Collector/Sync/Once.antt =====
-- The database of the collector of btc_data_collector/collect_btc_block.py over a run of its
-- threads and restarts.
use mathlib.Core.Path.{subst}
use cross_chain_mid_ware.Base.{
  ℕ, suc, ◌+◌, ◌≤◌, ◌≡◌, refl, ap, sym, ◌∙◌, String, Option, none, some, arith, All,
}
use cross_chain_mid_ware.Base.Text.{lower}
use cross_chain_mid_ware.Base.Dict.{lookup}
use cross_chain_mid_ware.Base.Result.{Result}
use cross_chain_mid_ware.Collector.Record.{Transfers}
use cross_chain_mid_ware.Collector.Store.{
  BlockInfo, get_json_data, Db, FlushData, Phase, put_blocks, put_deposits, put_withdraws,
  put_config, flush_step, clear_last_garbage_data, last_number, clear_from,
}
use cross_chain_mid_ware.Collector.Store.Laws.{lookup-update_config, IsOf}
use cross_chain_mid_ware.Collector.Sync.{
  System, boot, Step, fetch, take, flush, write, restart, Reach, here, next, run_flush,
}
use cross_chain_mid_ware.Collector.Sync.Expected.{
  Stamps, transfers_at-AllOf, Held, Held-append, Held-clear,
}
use cross_chain_mid_ware.Collector.Sync.Invariant.{
  deposits_at, withdraws_at, IsAt, IsFlushing, Inv, phase_after, IsWritten, Inv-fetch, Inv-take,
  Inv-flush,
}

-- What the database holds of the chain: the deposits of the blocks below `deposits` and the
-- withdrawals of those below `withdraws`, each block's once and in order, where `saved` is the
-- number that is saved under the key.
pub record IsExact {Tx : Type 0} (symbol sync_key : String) (fetch_block : ℕ → BlockInfo Tx)
    (collect_trx : Tx → ℕ → Transfers → Result Transfers) (db : Db) : Type 0 where
  pub saved : ℕ
  pub deposits : ℕ
  pub withdraws : ℕ
  pub is_saved : lookup sync_key db.b_config ≡ some saved
  pub held_d :
      Held
        (lower symbol)
        (deposits_at symbol sync_key fetch_block collect_trx)
        deposits
        db.b_deposit_transaction
  pub held_w :
      Held
        (lower symbol)
        (withdraws_at symbol sync_key fetch_block collect_trx)
        withdraws
        db.b_withdraw_transaction
  pub saved_le : saved ≤ withdraws
  pub withdraws_le : withdraws ≤ deposits
  pub deposits_le : deposits ≤ saved + 2

module _ {Tx : Type 0} (symbol sync_key : String) (fetch_block : ℕ → BlockInfo Tx)
    (collect_trx : Tx → ℕ → Transfers → Result Transfers) (stamps : Stamps symbol collect_trx) where
  deposits_at-IsOf :
      (k : ℕ)
      → All (IsOf (lower symbol) k) ((deposits_at symbol sync_key fetch_block collect_trx) k)
  deposits_at-IsOf k = (transfers_at-AllOf symbol fetch_block collect_trx stamps k).0

  withdraws_at-IsOf :
      (k : ℕ)
      → All (IsOf (lower symbol) k) ((withdraws_at symbol sync_key fetch_block collect_trx) k)
  withdraws_at-IsOf k = (transfers_at-AllOf symbol fetch_block collect_trx stamps k).1

  IsWritten-step :
      (data' : FlushData) (phase : Phase) (db : Db) (p : ℕ)
      → ((k : ℕ) → (fetch_block k).block_num ≡ k)
      → IsWritten symbol sync_key fetch_block collect_trx db (some (data', phase)) p
      → IsWritten symbol sync_key fetch_block collect_trx
          (flush_step sync_key data' phase db)
          (phase_after symbol sync_key fetch_block collect_trx data' phase)
          p
  unfolding flush_step last_number get_json_data
  IsWritten-step data' put_blocks db p heights written = record {
    n = written.n;
    d = written.d;
    w = written.w;
    saved = written.saved;
    held_d = written.held_d;
    held_w = written.held_w;
    low = written.low;
    flushing = written.flushing;
  }
  IsWritten-step data' put_deposits db p heights written =
      let (j, high, after, rows, collected, (d, w)) = written.flushing in
      record {
        n = written.n;
        d = suc written.d;
        w = written.w;
        saved = written.saved;
        held_d =
            Held-append (lower symbol) (deposits_at symbol sync_key fetch_block collect_trx)
              deposits_at-IsOf written.d db.b_deposit_transaction data'.transfers.deposits
              written.held_d
              (ap Transfers.deposits collected
                ∙ ap (deposits_at symbol sync_key fetch_block collect_trx) (sym d));
        held_w = written.held_w;
        low = written.low;
        flushing = (j, high, after, rows, collected, (ap suc d, w));
      }
  IsWritten-step data' put_withdraws db p heights written =
      let (j, high, after, rows, collected, (d, w)) = written.flushing in
      record {
        n = written.n;
        d = written.d;
        w = suc written.w;
        saved = written.saved;
        held_d = written.held_d;
        held_w =
            Held-append (lower symbol) (withdraws_at symbol sync_key fetch_block collect_trx)
              withdraws_at-IsOf written.w db.b_withdraw_transaction data'.transfers.withdraws
              written.held_w
              (ap Transfers.withdraws collected
                ∙ ap (withdraws_at symbol sync_key fetch_block collect_trx) (sym w));
        low = omega (arith, written.low);
        flushing = (j, high, after, rows, collected, (d, ap suc w));
      }
  IsWritten-step data' put_config db p heights written =
      let (j, high, after, rows, collected, (d, w)) = written.flushing in
      let number : last_number data'.blocks ≡ some j = rw rows (ap some (heights j)) in
      rw (flush_step, number)
        (record {
          n = j;
          d = written.d;
          w = written.w;
          saved = lookup-update_config sync_key written.n j db.b_config written.saved;
          held_d = written.held_d;
          held_w = written.held_w;
          low = omega (arith, w);
          flushing = (omega (arith, after), d ∙ sym after, w ∙ sym after);
        })

  Inv-write :
      (d : FlushData) (phase : Phase) (s : System Tx)
      → ((k : ℕ) → (fetch_block k).block_num ≡ k)
      → s.flush_thread ≡ some (d, phase)
      → Inv symbol sync_key fetch_block collect_trx s
      → Inv symbol sync_key fetch_block collect_trx
          (run_flush symbol sync_key fetch_block collect_trx d phase s)
  Inv-write d phase s heights running (p, m, written, cached, queued) = (
    p,
    m,
    IsWritten-step d phase s.db p heights
        (subst (λ t. IsWritten symbol sync_key fetch_block collect_trx s.db t p) running written),
    cached,
    queued,
  )

  IsAt-low :
      (phase : Phase) (j d w : ℕ) → IsAt symbol sync_key fetch_block collect_trx phase j d w → w ≤ d
  IsAt-low put_blocks j d w (hd, hw) = omega arith
  IsAt-low put_deposits j d w (hd, hw) = omega arith
  IsAt-low put_withdraws j d w (hd, hw) = omega arith
  IsAt-low put_config j d w (hd, hw) = omega arith

  IsWritten-low :
      (thread : Option (FlushData × Phase)) (n p d w : ℕ)
      → IsFlushing symbol sync_key fetch_block collect_trx thread n p d w
      → w ≤ d
  IsWritten-low none n p d w (high, hd, hw) = omega arith
  IsWritten-low (some (data', phase)) n p d w (j, high, after, rows, collected, place) =
      IsAt-low phase j d w place

  IsAt-high :
      (phase : Phase) (n j d w : ℕ)
      → j ≤ suc n
      → IsAt symbol sync_key fetch_block collect_trx phase j d w
      → d ≤ n + 2
  IsAt-high put_blocks n j d w le (hd, hw) = omega arith
  IsAt-high put_deposits n j d w le (hd, hw) = omega arith
  IsAt-high put_withdraws n j d w le (hd, hw) = omega arith
  IsAt-high put_config n j d w le (hd, hw) = omega arith

  IsWritten-high :
      (thread : Option (FlushData × Phase)) (n p d w : ℕ)
      → IsFlushing symbol sync_key fetch_block collect_trx thread n p d w
      → d ≤ n + 2
  IsWritten-high none n p d w (high, hd, hw) = omega arith
  IsWritten-high (some (data', phase)) n p d w (j, high, after, rows, collected, place) =
      IsAt-high phase n j d w high place

  IsExact-clear :
      (db : Db) (exact : IsExact symbol sync_key fetch_block collect_trx db)
      → IsWritten symbol sync_key fetch_block collect_trx
          (clear_from (lower symbol) exact.saved db)
          none
          exact.saved
  IsExact-clear db exact = record {
    n = exact.saved;
    d = exact.saved;
    w = exact.saved;
    saved = exact.is_saved;
    held_d =
        Held-clear (lower symbol) (deposits_at symbol sync_key fetch_block collect_trx)
          deposits_at-IsOf exact.saved exact.deposits db.b_deposit_transaction
          (omega (arith, exact.saved_le, exact.withdraws_le)) exact.held_d;
    held_w =
        Held-clear (lower symbol) (withdraws_at symbol sync_key fetch_block collect_trx)
          withdraws_at-IsOf exact.saved exact.withdraws db.b_withdraw_transaction exact.saved_le
          exact.held_w;
    low = omega arith;
    flushing = (omega arith, refl, refl);
  }

  Inv-boot :
      (db : Db)
      → IsExact symbol sync_key fetch_block collect_trx db
      → Inv symbol sync_key fetch_block collect_trx
          (boot symbol sync_key fetch_block collect_trx db)
  unfolding boot clear_last_garbage_data
  Inv-boot db exact =
      rw exact.is_saved (exact.saved, exact.saved, IsExact-clear db exact, (refl, refl), refl)

  IsExact-Inv :
      (s : System Tx)
      → Inv symbol sync_key fetch_block collect_trx s
      → IsExact symbol sync_key fetch_block collect_trx s.db
  IsExact-Inv s (p, m, written, cached, queued) = record {
    saved = written.n;
    deposits = written.d;
    withdraws = written.w;
    is_saved = written.saved;
    held_d = written.held_d;
    held_w = written.held_w;
    saved_le = written.low;
    withdraws_le = IsWritten-low s.flush_thread written.n p written.d written.w written.flushing;
    deposits_le = IsWritten-high s.flush_thread written.n p written.d written.w written.flushing;
  }

  Inv-step :
      {s t : System Tx}
      → ((k : ℕ) → (fetch_block k).block_num ≡ k)
      → Inv symbol sync_key fetch_block collect_trx s
      → Step symbol sync_key fetch_block collect_trx s t
      → Inv symbol sync_key fetch_block collect_trx t
  Inv-step {s} heights i (fetch latest) =
      Inv-fetch symbol sync_key fetch_block collect_trx latest s i
  Inv-step {s} heights i (take b rest c empty q h) =
      Inv-take symbol sync_key fetch_block collect_trx b rest c s heights empty q h i
  Inv-step {s} heights i (flush full idle) =
      Inv-flush symbol sync_key fetch_block collect_trx s full idle i
  Inv-step {s} heights i (write d phase running) = Inv-write d phase s heights running i
  Inv-step {s} heights i restart = Inv-boot s.db (IsExact-Inv s i)

  pub Inv-Reach :
      {s t : System Tx}
      → ((k : ℕ) → (fetch_block k).block_num ≡ k)
      → Inv symbol sync_key fetch_block collect_trx s
      → Reach symbol sync_key fetch_block collect_trx s t
      → Inv symbol sync_key fetch_block collect_trx t
  Inv-Reach heights i here = i
  Inv-Reach heights i (next r step) = Inv-step heights (Inv-Reach heights i r) step

  -- From a database that is exact, the collector is started and runs through any steps: blocks
  -- fetched, blocks taken out of the queue, caches handed over, single steps of the flush thread,
  -- and restarts at any moment, in any order. The database stays exact: it holds, of the chain, the
  -- deposits and the withdrawals of an initial run of blocks, each block's once and in order, and
  -- no less than the saved number says and at most two blocks more. The node gives for every number
  -- a block of that number, and a collected transaction's transfers name its block and the chain.
  pub boot-IsExact :
      (db : Db) (t : System Tx)
      → ((k : ℕ) → (fetch_block k).block_num ≡ k)
      → IsExact symbol sync_key fetch_block collect_trx db
      → Reach symbol sync_key fetch_block collect_trx
          (boot symbol sync_key fetch_block collect_trx db)
          t
      → IsExact symbol sync_key fetch_block collect_trx t.db
  boot-IsExact db t heights exact r = IsExact-Inv t (Inv-Reach heights (Inv-boot db exact) r)
