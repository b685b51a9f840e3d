-- ===== src/Service/Records/Laws.antt =====
-- What the handlers for one collection answer (service/sim_api.py).
use mathlib.Core.List.{Perm}
use mathlib.Core.List.Perm
use cross_chain_mid_ware.Base.{
  ℕ, ◌≤◌, ◌≡◌, refl, String, List, [], ◌∷◌, ◌++◌, ◌&&◌, str_eq, eq_iff, leb, ltb, arith, All,
  Bool-cases, inl, inr,
}
use cross_chain_mid_ware.Base.Text.{lower}
use cross_chain_mid_ware.Collector.Record.{Transfer}
use cross_chain_mid_ware.Service.Interface.{given, answer}
use cross_chain_mid_ware.Service.History.{insert_newest, newest_first, first_block}
use cross_chain_mid_ware.Service.Records.{rows_from, transaction_history}

-- No row comes before one of a higher block.
abbrev pub IsNewestFirst : List Transfer → Type 0
IsNewestFirst [] = Unit
IsNewestFirst (t ∷ ts) = All (λ u. u.block_num ≤ t.block_num) ts × IsNewestFirst ts

All-insert_newest :
    (P : Transfer → Type 0) (t : Transfer) (ts : List Transfer)
    → P t
    → All P ts
    → All P (insert_newest t ts)
unfolding insert_newest
All-insert_newest P t [] h a = (h, tt)
All-insert_newest P t (u ∷ us) h a = elim (Bool-cases (ltb t.block_num u.block_num)) [
  | inl e ↦ rw e (a.0, All-insert_newest P t us h a.1)
  | inr e ↦ rw e (h, a)
]

All-newest_first : (P : Transfer → Type 0) (ts : List Transfer) → All P ts → All P (newest_first ts)
unfolding newest_first
All-newest_first P [] a = tt
All-newest_first P (t ∷ ts) a =
    All-insert_newest P t (newest_first ts) a.0 (All-newest_first P ts a.1)

All-le :
    (low high : ℕ) (ts : List Transfer)
    → low ≤ high
    → All (λ u. u.block_num ≤ low) ts
    → All (λ u. u.block_num ≤ high) ts
All-le low high [] h a = tt
All-le low high (t ∷ ts) h a = (omega (arith, a.0), All-le low high ts h a.1)

insert_newest-IsNewestFirst :
    (t : Transfer) (ts : List Transfer) → IsNewestFirst ts → IsNewestFirst (insert_newest t ts)
unfolding insert_newest
insert_newest-IsNewestFirst t [] s = (tt, tt)
insert_newest-IsNewestFirst t (u ∷ us) s = elim (Bool-cases (ltb t.block_num u.block_num)) [
  | inl e ↦ rw e (
    All-insert_newest (λ v. v.block_num ≤ u.block_num) t us (ground arith) s.0,
    insert_newest-IsNewestFirst t us s.1,
  )
  | inr e ↦ rw e ((ground arith, All-le u.block_num t.block_num us (ground arith) s.0), s)
]

newest_first-IsNewestFirst : (ts : List Transfer) → IsNewestFirst (newest_first ts)
unfolding newest_first
newest_first-IsNewestFirst [] = tt
newest_first-IsNewestFirst (t ∷ ts) =
    insert_newest-IsNewestFirst t (newest_first ts) (newest_first-IsNewestFirst ts)

insert_newest-Perm : (t : Transfer) (ts : List Transfer) → Perm (insert_newest t ts) (t ∷ ts)
unfolding insert_newest
insert_newest-Perm t [] = Perm.refl _
insert_newest-Perm t (u ∷ us) = elim (Bool-cases (ltb t.block_num u.block_num)) [
  | inl e ↦ rw e (Perm.trans (Perm.cons u (insert_newest-Perm t us)) (Perm.swap t u us))
  | inr e ↦ rw e (Perm.refl _)
]

newest_first-Perm : (ts : List Transfer) → Perm (newest_first ts) ts
unfolding newest_first
newest_first-Perm [] = Perm.refl _
newest_first-Perm (t ∷ ts) =
    Perm.trans (insert_newest-Perm t (newest_first ts)) (Perm.cons t (newest_first-Perm ts))

-- A row of the chain, from the block `low` on.
abbrev pub IsFrom : String → ℕ → Transfer → Type 0
IsFrom chain low t = (t.chain_id ≡ chain) × (low ≤ t.block_num)

-- The block of the first row, or 0.
abbrev pub IsFirstBlock : ℕ → List Transfer → Type 0
IsFirstBlock n [] = n ≡ 0
IsFirstBlock n (t ∷ ts) = n ≡ t.block_num

middle-Perm :
    (t : Transfer) (ts others : List Transfer) → Perm (t ∷ (ts ++ others)) (ts ++ t ∷ others)
middle-Perm t [] others = Perm.refl _
middle-Perm t (u ∷ ts) others =
    Perm.trans (Perm.swap u t (ts ++ others)) (Perm.cons u (middle-Perm t ts others))

-- Those that are taken, and the others.
rows_from-Perm :
    (chain : String) (low : ℕ) (rows : List Transfer)
    → (others : List Transfer) × Perm rows (rows_from chain low rows ++ others)
      × All (IsFrom chain low) (rows_from chain low rows)
      × All (λ t. ¬ IsFrom chain low t) others
unfolding rows_from
rows_from-Perm chain low [] = ([], Perm.refl _, tt, tt)
rows_from-Perm chain low (t ∷ ts) =
    let (others, p, a, b) = rows_from-Perm chain low ts in
    elim (Bool-cases (str_eq t.chain_id chain && leb low t.block_num)) [
      | inl e ↦ rw e (
        others,
        Perm.cons t p,
        (((eq_iff t.chain_id chain).0 (ground (arith, e)), ground (arith, e)), a),
        b,
      )
      | inr e ↦ rw e (
        t ∷ others,
        Perm.trans (Perm.cons t p) (middle-Perm t (rows_from chain low ts) others),
        a,
        (λ (c, l). ground (arith, e, l, (eq_iff t.chain_id chain).1 c), b),
      )
    ]

first_block-IsFirstBlock : (ts : List Transfer) → IsFirstBlock (first_block ts 0) ts
first_block-IsFirstBlock [] = refl
first_block-IsFirstBlock (t ∷ ts) = refl

-- For arguments of the right types each of the three handlers answers with rows of its collection.
-- They are, each once, those of the chain from the given block on, and no others: what is left over
-- of the collection is of another chain or of an earlier block. None stands before one of a higher
-- block, and the number in the answer is the first row's, or 0 where there is none.
pub transaction_history-rows :
    (rows : List Transfer) (chain account : String) (low limit : ℕ)
    → (n : ℕ) × (trxs : List Transfer) × (others : List Transfer) × (transaction_history rows
          (given chain)
          (given account)
          (given low)
          (given limit)
        ≡ answer (lower chain, n, trxs))
      × Perm rows (trxs ++ others)
      × All (IsFrom (lower chain) low) trxs
      × All (λ t. ¬ IsFrom (lower chain) low t) others
      × IsNewestFirst trxs
      × IsFirstBlock n trxs
unfolding transaction_history
transaction_history-rows rows chain account low limit =
    let found = rows_from (lower chain) low rows in
    let (others, p, a, b) = rows_from-Perm (lower chain) low rows in
    let same = newest_first-Perm found in
    (
      first_block (newest_first found) 0,
      newest_first found,
      others,
      refl,
      Perm.trans p (Perm.append_right others (Perm.symm same)),
      All-newest_first (IsFrom (lower chain) low) found a,
      b,
      newest_first-IsNewestFirst found,
      first_block-IsFirstBlock (newest_first found),
    )
