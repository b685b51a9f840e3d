-- ===== src/Eth/Sync/Progress.antt =====
-- The rounds go on to the node's latest block, and save its number.
use cross_chain_mid_ware.Base.{
  ℕ, zero, suc, ◌+◌, ◌-◌, ◌<◌, ◌≡◌, refl, ap, ◌∙◌, String, true, false, Option, some, List, arith,
  leb, ◌==◌, Bool-cases, inl, inr,
}
use cross_chain_mid_ware.Base.Result.{Result, ok, err, Result-cases}
use cross_chain_mid_ware.Eth.Node.{EthTrx, ErcTrx, Node}
use cross_chain_mid_ware.Eth.Rows.{Db, each}
use cross_chain_mid_ware.Eth.Rows.Laws.{each_inv}
use cross_chain_mid_ware.Eth.Store.Laws.{IsKept, trx_store_eth-IsKept}
use cross_chain_mid_ware.Eth.Erc.Laws.{trx_store_erc-IsKept}
use cross_chain_mid_ware.Eth.Sync.{
  Round, next_round, State, run_round, save, Outcome, in_sync, failed, sync, collect_block,
  collect_data_cb, eth_trx_store, store_trx, store_erc_trxs,
}
use cross_chain_mid_ware.Eth.Sync.Laws.{next_round-InRange, start-latest, collect_step}

module _ (P : Db → Type 0) (kept : IsKept P) (node : Node) where
  store_trx-IsKept : (x : Result (Option EthTrx)) (db : Db) → P db → P (store_trx node x db).0
  unfolding store_trx
  store_trx-IsKept (err raised) db h = h
  store_trx-IsKept (ok x) db h = trx_store_eth-IsKept P kept node x db h

  store_erc_trxs-IsKept :
      (xs : Result (Option (List ErcTrx))) (db : Db) → P db → P (store_erc_trxs node xs db).0
  unfolding store_erc_trxs
  store_erc_trxs-IsKept (err raised) db h = h
  store_erc_trxs-IsKept (ok xs) db h = trx_store_erc-IsKept P kept node xs db h

  eth_trx_store-IsKept :
      (ids erc_ids : List String) (db : Db) → P db → P (eth_trx_store node ids erc_ids db)
  unfolding eth_trx_store
  eth_trx_store-IsKept ids erc_ids db h =
      let one = λ (id : String). store_trx node (node.get_trx id) in
      let erc = λ (id : String). store_erc_trxs node (node.get_erc20_trx id) in
      let h1 = each_inv P one (λ id. store_trx-IsKept (node.get_trx id)) ids db h in
      elim (Bool-cases (each one ids db).1) [
        | inl e ↦
            rw e (each_inv P erc (λ id. store_erc_trxs-IsKept (node.get_erc20_trx id)) erc_ids _ h1)
        | inr e ↦ rw e h1
      ]

  collect_data_cb-IsKept : (count n : ℕ) (db : Db) → P db → P (collect_data_cb node count n db)
  unfolding collect_data_cb
  collect_data_cb-IsKept zero n db h = h
  collect_data_cb-IsKept (suc count) n db h = elim (Result-cases (collect_block node n)) [
    | inl (raised, e) ↦ rw (collect_step node count n db _ e) h
    | inr (ids, e) ↦
        rw (collect_step node count n db _ e)
          (collect_data_cb-IsKept count (n + 1) _ (eth_trx_store-IsKept ids.0 ids.1 db h))
  ]

saved-IsKept : (n : Option ℕ) → IsKept (λ db. db.syncblocknum ≡ n)
saved-IsKept n = record {
  deposits = λ db rows h. h;
  withdraws = λ db rows h. h;
  guard_calls = λ db guard receipt t h. h;
}

run_round-saved :
    (node : Node) (r : Round) (m : ℕ) (s : State)
    → s.db.syncblocknum ≡ some m
    → (run_round node r s).db.syncblocknum ≡ some r.sync_end
unfolding run_round
run_round-saved node r m s h =
    let e =
      collect_data_cb-IsKept (λ db. db.syncblocknum ≡ some m) (saved-IsKept (some m)) node
        (r.sync_end + 1 - r.sync_start) r.sync_start s.db h in
    ap (save r.sync_end) e

module _ (node : ℕ → Node) (height : ℕ)
    (still : (k : ℕ) → (node k).get_block_height ≡ ok height) where
  sync-done :
      (fuel k : ℕ) (s : State)
      → 0 < fuel
      → leb height s.last_sync_block_num ≡ true
      → sync fuel node k s ≡ (s, in_sync)
  unfolding sync
  sync-done zero k s pos h = absurd (omega arith)
  sync-done (suc fuel) k s pos h =
      rw (sync, still k, start-latest height s.last_sync_block_num, h) refl

  sync-more :
      (fuel k : ℕ) (s : State)
      → leb height s.last_sync_block_num ≡ false
      → sync (suc fuel) node k s
        ≡ sync fuel node (k + 1) (run_round (node k) (next_round height s.last_sync_block_num) s)
  unfolding sync
  sync-more fuel k s h =
      let go = λ (latest : ℕ).
        sync fuel node (k + 1) (run_round (node k) (next_round latest s.last_sync_block_num) s) in
      ap
        (λ (answer : Result ℕ). elim answer as (λ _. State × Outcome) [
          | err e ↦ (s, failed)
          | ok latest ↦
              elim ((next_round latest s.last_sync_block_num).sync_start == latest)
                as (λ _. State × Outcome) [ true ↦ (s, in_sync) | false ↦ go latest ]
        ])
        (still k)
      ∙ ap (λ b. elim b as (λ _. State × Outcome) [ true ↦ (s, in_sync) | false ↦ go height ])
          (start-latest height s.last_sync_block_num ∙ h)

  -- With a node that stays at one height, above the last block collected, and a saved number in the
  -- database, as many rounds as there are blocks are enough to be in sync, and one more: the height
  -- is then the last block and the saved number, whatever the node answers about the blocks.
  pub sync-catches_up :
      (fuel k m : ℕ) (s : State)
      → height < fuel + s.last_sync_block_num
      → s.last_sync_block_num < height
      → s.db.syncblocknum ≡ some m
      → let result = sync fuel node k s in
        (result.1 ≡ in_sync)
        × (result.0.last_sync_block_num ≡ height)
        × (result.0.db.syncblocknum ≡ some height)
  sync-catches_up zero k m s enough low saved = absurd (omega arith)
  sync-catches_up (suc fuel) k m s enough low saved =
      let r = next_round height s.last_sync_block_num in
      let (_, more, top, _) = next_round-InRange height s.last_sync_block_num low in
      let now = run_round (node k) r s in
      let saved' = run_round-saved (node k) r m s saved in
      let e = sync-more fuel k s (ground (arith, low)) in
      rw e (elim (Bool-cases (leb height r.sync_end)) [
        | inl t ↦
            let end : r.sync_end ≡ height = ground (arith, t, top) in
            let stop : sync fuel node (k + 1) now ≡ (now, in_sync) =
              sync-done fuel (k + 1) now (omega (arith, enough, low)) (unfold run_round in t) in
            rw stop (refl, unfold run_round in end, saved' ∙ ap some end)
        | inr t ↦
            sync-catches_up fuel (k + 1) r.sync_end now
              (unfold run_round in omega (arith, enough, more))
              (unfold run_round in ground (arith, t)) saved'
      ])
