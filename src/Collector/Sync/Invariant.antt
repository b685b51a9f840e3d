-- ===== src/Collector/Sync/Invariant.antt =====
-- What holds of the collector of btc_data_collector/collect_btc_block.py at every moment, and that
-- the threads in memory keep it.
use mathlib.Core.Path.{subst}
use cross_chain_mid_ware.Base.{
  ℕ, suc, ◌+◌, ◌≤◌, ◌≡◌, ◌≢◌, refl, ap, sym, ◌∙◌, String, Option, none, some, List, [], ◌∷◌, ◌++◌,
  arith, length, ltb, leb, Bool-cases, inl, inr,
}
use cross_chain_mid_ware.Base.Text.{lower}
use cross_chain_mid_ware.Base.Dict.{lookup}
use cross_chain_mid_ware.Base.Result.{Result, ok}
use cross_chain_mid_ware.Collector.Record.{Transfer, Transfers}
use cross_chain_mid_ware.Collector.Store.{
  BlockInfo, BlockRow, get_json_data, Db, FlushData, Phase, put_blocks, put_deposits, put_withdraws,
  put_config, next_phase,
}
use cross_chain_mid_ware.Collector.Sync.{
  no_transfers, System, process_blocks_round, collect_transactions, start_flush, take_block,
}
use cross_chain_mid_ware.Collector.Sync.Expected.{ok_or_empty, transfers_at, Held}

module _ {Tx : Type 0} (symbol sync_key : String) (fetch_block : ℕ → BlockInfo Tx)
    (collect_trx : Tx → ℕ → Transfers → Result Transfers) where
  abbrev pub deposits_at : ℕ → List Transfer
  deposits_at k = (transfers_at symbol fetch_block collect_trx k).deposits

  abbrev pub withdraws_at : ℕ → List Transfer
  withdraws_at k = (transfers_at symbol fetch_block collect_trx k).withdraws

  -- The queue holds the blocks from `m` up to `e`.
  abbrev pub IsQueued : List (BlockInfo Tx) → ℕ → ℕ → Type 0
  IsQueued [] m e = m ≡ e
  IsQueued (b ∷ bs) m e = (b ≡ fetch_block m) × IsQueued bs (suc m) e

  -- The caches hold nothing or block `p`, and `m` is the next block to take.
  abbrev pub IsCached : List BlockRow → Transfers → ℕ → ℕ → Type 0
  IsCached [] c p m = (c ≡ no_transfers) × (m ≡ p)
  IsCached (b ∷ bs) c p m =
      (b ∷ bs ≡ get_json_data (fetch_block p) ∷ [])
      × (c ≡ transfers_at symbol fetch_block collect_trx p)
      × (m ≡ suc p)

  -- How far the two tables are while block `j` is written.
  abbrev pub IsAt : Phase → ℕ → ℕ → ℕ → Type 0
  IsAt put_blocks j d w = (d ≡ j) × (w ≡ j)
  IsAt put_deposits j d w = (d ≡ j) × (w ≡ j)
  IsAt put_withdraws j d w = (d ≡ suc j) × (w ≡ j)
  IsAt put_config j d w = (d ≡ suc j) × (w ≡ suc j)

  -- What the flush thread writes is block `j`, the one before `p`.
  abbrev pub IsFlushing : Option (FlushData × Phase) → ℕ → ℕ → ℕ → ℕ → Type 0
  IsFlushing none n p d w = (p ≤ suc n) × (d ≡ p) × (w ≡ p)
  IsFlushing (some (data', phase)) n p d w =
      (j : ℕ) × (j ≤ suc n)
      × (p ≡ suc j)
      × (data'.blocks ≡ get_json_data (fetch_block j) ∷ [])
      × (data'.transfers ≡ transfers_at symbol fetch_block collect_trx j)
      × IsAt phase j d w

  -- The saved number is `n`, the tables hold the blocks below `d` and `w`.
  pub record IsWritten (db : Db) (thread : Option (FlushData × Phase)) (p : ℕ) : Type 0 where
    pub n : ℕ
    pub d : ℕ
    pub w : ℕ
    pub saved : lookup sync_key db.b_config ≡ some n
    pub held_d : Held (lower symbol) deposits_at d db.b_deposit_transaction
    pub held_w : Held (lower symbol) withdraws_at w db.b_withdraw_transaction
    pub low : n ≤ w
    pub flushing : IsFlushing thread n p d w

  -- What is in memory continues from there.
  abbrev pub Inv : System Tx → Type 0
  Inv s =
      (p m : ℕ) × IsWritten s.db s.flush_thread p
      × IsCached s.block_cache s.transfers p m
      × IsQueued s.queue m s.last_sync_block_num

  IsQueued-append :
      (bs : List (BlockInfo Tx)) (m e : ℕ)
      → IsQueued bs m e
      → IsQueued (bs ++ fetch_block e ∷ []) m (e + 1)
  IsQueued-append [] m e h = (ap fetch_block (sym h), omega (arith, h))
  IsQueued-append (b ∷ bs) m e h = (h.0, IsQueued-append bs (suc m) e h.1)

  pub Inv-fetch :
      (latest : Option ℕ) (s : System Tx)
      → Inv s
      → Inv (process_blocks_round symbol sync_key fetch_block collect_trx latest s)
  unfolding process_blocks_round
  Inv-fetch none s i = i
  Inv-fetch (some latest) s (p, m, written, cached, queued) =
      elim (Bool-cases (leb latest s.last_sync_block_num)) [
        | inl e ↦ rw e (p, m, written, cached, queued)
        | inr e ↦ elim (Bool-cases (ltb 10 (length s.queue))) [
          | inl e' ↦ rw (e, e') (p, m, written, cached, queued)
          | inr e' ↦
              rw (e, e')
                (p, m, written, cached, IsQueued-append s.queue m s.last_sync_block_num queued)
        ]
      ]

  pub Inv-take :
      (b : BlockInfo Tx) (rest : List (BlockInfo Tx)) (c : Transfers) (s : System Tx)
      → ((k : ℕ) → (fetch_block k).block_num ≡ k)
      → s.block_cache ≡ []
      → s.queue ≡ b ∷ rest
      → collect_transactions symbol collect_trx b.transactions b.block_num s.transfers ≡ ok c
      → Inv s
      → Inv (take_block symbol sync_key fetch_block collect_trx b rest c s)
  Inv-take b rest c s heights empty q h (p, m, written, cached, queued) =
      let (none_yet, same) = subst (λ l. IsCached l s.transfers p m) empty cached in
      let (is_b, behind) = subst (λ l. IsQueued l m s.last_sync_block_num) q queued in
      let is_p : b ≡ fetch_block p = is_b ∙ ap fetch_block same in
      let collected : c ≡ transfers_at symbol fetch_block collect_trx p =
        ap ok_or_empty (sym (rw (is_p, heights p, none_yet) at h)) in
      (
        p,
        suc m,
        written,
        subst (λ l. IsCached (l ++ get_json_data b ∷ []) c p (suc m)) (sym empty)
            (rw is_p refl, collected, ap suc same),
        behind,
      )

  IsWritten-start :
      (blocks : List BlockRow) (c : Transfers) (db : Db) (p m : ℕ)
      → blocks ≢ []
      → IsCached blocks c p m
      → IsWritten db none p
      → IsWritten db (some (record { blocks = blocks; transfers = c }, put_blocks)) m
  IsWritten-start [] c db p m full cached written = absurd (full refl)
  IsWritten-start (b ∷ bs) c db p m full (is_p, collected, after) written =
      let (high, d, w) = written.flushing in
      record {
        n = written.n;
        d = written.d;
        w = written.w;
        saved = written.saved;
        held_d = written.held_d;
        held_w = written.held_w;
        low = written.low;
        flushing = (p, high, after, is_p, collected, (d, w));
      }

  pub Inv-flush :
      (s : System Tx)
      → s.block_cache ≢ []
      → s.flush_thread ≡ none
      → Inv s
      → Inv (start_flush symbol sync_key fetch_block collect_trx s)
  Inv-flush s full idle (p, m, written, cached, queued) = (
    m,
    m,
    IsWritten-start s.block_cache s.transfers s.db p m full cached
        (subst (λ t. IsWritten s.db t p) idle written),
    (refl, refl),
    queued,
  )

  abbrev pub phase_after : FlushData → Phase → Option (FlushData × Phase)
  phase_after d phase = elim (next_phase phase) [ none ↦ none | some later ↦ some (d, later) ]
