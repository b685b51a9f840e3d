-- ===== src/Usdt/Fetch/Laws.antt =====
-- What becomes of a block that cannot be fetched.
use cross_chain_mid_ware.Base.{
  ℕ, zero, suc, ◌+◌, ◌≤◌, ◌<◌, ◌≡◌, ◌≢◌, ap, ◌∙◌, String, false, Option, none, some, List, [], ◌∷◌,
  All, All-append, arith, length, ltb, leb, ◌==◌, ==_iff, Bool-cases, inl, inr,
}
use cross_chain_mid_ware.Collector.Store.{BlockInfo}
use cross_chain_mid_ware.Usdt.Fetch.{
  ListTransactions, from_onmi_list_transaction, add_block, collect_blocks, Fetcher,
  collect_thread_count, fetch_blocks, usdt_round, Event, round, take, take_first, run_events,
}

abbrev pub Without : ℕ → List (BlockInfo String) → Type 0
Without k bs = All (λ (b : BlockInfo String). b.block_num ≢ k) bs

add_block-Without :
    (n k : ℕ) (ids : Option (List String)) (bs : List (BlockInfo String))
    → k < n
    → Without k bs
    → Without k (add_block n ids bs)
unfolding from_onmi_list_transaction
add_block-Without n k none bs h rest = rest
add_block-Without n k (some ids) bs h rest = ((λ e. absurd (omega (arith, e))), rest)

length-add_block :
    (n : ℕ) (ids : Option (List String)) (bs : List (BlockInfo String))
    → length (add_block n ids bs) ≤ suc (length bs)
length-add_block n none bs = omega arith
length-add_block n (some ids) bs = omega arith

collect_blocks-Without :
    (list : ListTransactions) (count n k : ℕ) → k < n → Without k (collect_blocks list count n)
unfolding collect_blocks from_onmi_list_transaction
collect_blocks-Without list zero n k h = tt
collect_blocks-Without list (suc count) n k h =
    add_block-Without n k (list n) _ h (collect_blocks-Without list count (n + 1) k (omega arith))

length-collect_blocks :
    (list : ListTransactions) (count n : ℕ) → length (collect_blocks list count n) ≤ count
unfolding collect_blocks
length-collect_blocks list zero n = omega arith
length-collect_blocks list (suc count) n = omega (
  arith,
  length-add_block n (list n) (collect_blocks list count (n + 1)),
  length-collect_blocks list count (n + 1),
)

collect_blocks-missing :
    (list : ListTransactions) (count n k : ℕ)
    → n ≤ k
    → k < n + count
    → list k ≡ none
    → length (collect_blocks list count n) < count
unfolding collect_blocks
collect_blocks-missing list zero n k lo hi h = absurd (omega arith)
collect_blocks-missing list (suc count) n k lo hi h = elim (Bool-cases (n == k)) [
  | inl e ↦
      let here : list n ≡ none = ap list ((==_iff n k).0 e) ∙ h in
      rw here (omega (arith, length-collect_blocks list count (n + 1)))
  | inr e ↦
      let rest = collect_blocks-missing list count (n + 1) k (ground (arith, e)) (omega arith) h in
      omega (arith, rest, length-add_block n (list n) (collect_blocks list count (n + 1)))
]

-- Past the number of a block, none of that number comes into the queue.
abbrev pub IsPast : ℕ → Fetcher → Type 0
IsPast k s = (k < s.last_sync_block_num) × Without k s.queue

fetch_blocks-IsPast :
    (list : ListTransactions) (count k : ℕ) (s : Fetcher)
    → IsPast k s
    → IsPast k (fetch_blocks list count s)
unfolding fetch_blocks
fetch_blocks-IsPast list count k s h =
    elim (Bool-cases (length (collect_blocks list count s.last_sync_block_num) == count)) [
      | inl e ↦ rw e (
        omega (arith, h.0),
        All-append _ s.queue _ h.1 (collect_blocks-Without list count s.last_sync_block_num k h.0),
      )
      | inr e ↦ rw e (omega (arith, h.0), h.1)
    ]

usdt_round-IsPast :
    (threads : ℕ) (list : ListTransactions) (latest : Option ℕ) (k : ℕ) (s : Fetcher)
    → IsPast k s
    → IsPast k (usdt_round threads list latest s)
unfolding usdt_round
usdt_round-IsPast threads list none k s h = h
usdt_round-IsPast threads list (some latest) k s h =
    elim (Bool-cases (leb latest s.last_sync_block_num)) [
      | inl e ↦ rw e h
      | inr e ↦ elim (Bool-cases (ltb 10 (length s.queue))) [
        | inl f ↦ rw (e, f) h
        | inr f ↦
            rw (e, f)
              (fetch_blocks-IsPast list (collect_thread_count threads latest s.last_sync_block_num)
                k s h)
      ]
    ]

take_first-Without :
    (k : ℕ) (bs : List (BlockInfo String)) → Without k bs → Without k (take_first bs)
unfolding take_first
take_first-Without k [] h = tt
take_first-Without k (b ∷ bs) h = h.1

run_events-IsPast :
    (threads : ℕ) (es : List Event) (k : ℕ) (s : Fetcher)
    → IsPast k s
    → IsPast k (run_events threads es s)
unfolding run_events
run_events-IsPast threads [] k s h = h
run_events-IsPast threads (round latest list ∷ es) k s h =
    run_events-IsPast threads es k _ (usdt_round-IsPast threads list latest k s h)
run_events-IsPast threads (take ∷ es) k s h =
    run_events-IsPast threads es k _ (h.0, take_first-Without k s.queue h.1)

-- When one of the blocks that a round fetches cannot be had, no block of its number ever comes into
-- the queue, whatever the node answers afterwards: the loop does not go back to it.
pub fetch_blocks-loses :
    (threads count k : ℕ) (list : ListTransactions) (es : List Event) (s : Fetcher)
    → s.last_sync_block_num ≤ k
    → k < s.last_sync_block_num + count
    → list k ≡ none
    → Without k s.queue
    → Without k (run_events threads es (fetch_blocks list count s)).queue
unfolding fetch_blocks
fetch_blocks-loses threads count k list es s lo hi h old =
    let missing = collect_blocks-missing list count s.last_sync_block_num k lo hi h in
    let e : (length (collect_blocks list count s.last_sync_block_num) == count) ≡ false =
      ground (arith, missing) in
    let past : IsPast k (fetch_blocks list count s) = rw e (hi, old) in
    (run_events-IsPast threads es k (fetch_blocks list count s) past).1
