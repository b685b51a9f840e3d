-- ===== src/Service/History/Laws.antt =====
-- What a client of `Zchain.Transaction.All.History` (service/sim_api.py) is told.
use cross_chain_mid_ware.Base.{
  ℕ, zero, suc, ◌+◌, ◌*◌, ◌≤◌, ◌<◌, ◌≡◌, refl, ap, sym, ◌∙◌, String, ◌||◌, Option, none, some, List,
  [], ◌∷◌, ◌++◌, length, ltb, arith, All, Bool-cases, inl, inr, ◌⊎◌,
}
use cross_chain_mid_ware.Collector.Record.{Transfer}
use cross_chain_mid_ware.Service.History.{
  Tables, between, has_after, insert_newest, newest_first, nothing_found, max, first_block,
  guardcalls, window, read_window, read_windows, window_count, history_from,
}

-- What is at most block `high`.
abbrev AtMost : ℕ → Transfer → Type 0
AtMost high t = t.block_num ≤ high

insert_newest-AtMost :
    (high : ℕ) (t : Transfer) (ts : List Transfer)
    → t.block_num ≤ high
    → All (AtMost high) ts
    → All (AtMost high) (insert_newest t ts)
unfolding insert_newest
insert_newest-AtMost high t [] h a = (h, tt)
insert_newest-AtMost high t (u ∷ us) h a = ground (arith, insert_newest-AtMost high t us h a.1)

AtMost-le :
    (low high : ℕ) (ts : List Transfer) → low ≤ high → All (AtMost low) ts → All (AtMost high) ts
AtMost-le low high [] h a = tt
AtMost-le low high (t ∷ ts) h a = (omega (arith, a.0), AtMost-le low high ts h a.1)

-- The first one after sorting has the highest number.
first_block-insert_newest :
    (t : Transfer) (ts : List Transfer)
    → first_block (insert_newest t ts) 0 ≡ max (first_block ts 0) t.block_num
unfolding insert_newest
first_block-insert_newest t [] = ground arith
first_block-insert_newest t (u ∷ us) = ground arith

newest_first-AtMost : (ts : List Transfer) → All (AtMost (first_block (newest_first ts) 0)) ts
unfolding newest_first
newest_first-AtMost [] = tt
newest_first-AtMost (t ∷ ts) =
    let e = first_block-insert_newest t (newest_first ts) in
    (
      ground arith,
      AtMost-le (first_block (newest_first ts) 0) _ ts (ground arith) (newest_first-AtMost ts),
    )

module _ (chain : String) where
  between-none : (a b : ℕ) (ts : List Transfer) → b ≤ a → between chain a b ts ≡ []
  unfolding between
  between-none a b [] h = refl
  between-none a b (t ∷ ts) h = ground (arith, between-none a b ts)

  -- Two neighbouring windows, the first of them empty, are one.
  between-join :
      (a b c : ℕ) (ts : List Transfer)
      → a ≤ b
      → b ≤ c
      → between chain a b ts ≡ []
      → between chain a c ts ≡ between chain b c ts
  unfolding between
  between-join a b c [] h k e = refl
  between-join a b c (t ∷ ts) h k e = ground (arith, between-join a b c ts h k)

  -- A window may end at its highest number.
  between-cut :
      (a b c : ℕ) (ts : List Transfer)
      → b ≤ c
      → All (AtMost b) (between chain a c ts)
      → between chain a c ts ≡ between chain a b ts
  unfolding between
  between-cut a b c [] h k = refl
  between-cut a b c (t ∷ ts) h k = ground (arith, between-cut a b c ts h)

  between-high : (a c : ℕ) (ts : List Transfer) → All (AtMost c) (between chain a c ts)
  unfolding between
  between-high a c [] = tt
  between-high a c (t ∷ ts) = ground (arith, between-high a c ts)

insert_newest-ne_nil : (t : Transfer) (ts : List Transfer) → 0 < length (insert_newest t ts)
unfolding insert_newest
insert_newest-ne_nil t [] = omega arith
insert_newest-ne_nil t (u ∷ us) = ground arith

newest_first-nil : (ts : List Transfer) → length (newest_first ts) ≡ 0 → ts ≡ []
unfolding newest_first
newest_first-nil [] h = refl
newest_first-nil (t ∷ ts) h = absurd (omega (arith, insert_newest-ne_nil t (newest_first ts)))

newest_first-le :
    (high : ℕ) (ts : List Transfer) → All (AtMost high) ts → first_block (newest_first ts) 0 ≤ high
unfolding newest_first
newest_first-le high [] a = omega arith
newest_first-le high (t ∷ ts) a =
    ground (arith, first_block-insert_newest t (newest_first ts), newest_first-le high ts a.1)

nil_of : {A : Type 0} (xs : List A) → length xs ≡ 0 → xs ≡ []
nil_of [] h = refl
nil_of (x ∷ xs) h = absurd (omega arith)

length_zero :
    {A : Type 0} (xs ys : List A) → length (xs ++ ys) ≡ 0 → (length xs ≡ 0) × (length ys ≡ 0)
length_zero [] ys h = (refl, h)
length_zero (x ∷ xs) ys h = absurd (omega arith)

module _ (db : Tables) (chain : String) (block_num dep_num : ℕ) where
  -- Everything that the tables hold of the chain after `block_num` and up to block `high`.
  abbrev pub all_up_to : ℕ → List Transfer
  all_up_to high =
      newest_first (between chain block_num high db.b_deposit_transaction)
      ++ newest_first (between chain block_num high db.b_withdraw_transaction)
      ++ newest_first (between chain block_num high (guardcalls db chain))

  -- The answer gives a number and everything up to it.
  abbrev pub Told : Option ℕ → List Transfer → Type 0
  Told number trxs =
      (high : ℕ) × (number ≡ some high) × (block_num ≤ high) × (trxs ≡ all_up_to high)

  abbrev low : ℕ → ℕ
  low i = block_num + i * dep_num

  low-step : (i : ℕ) → low i ≤ low (i + 1)
  low-step i = omega arith

  window-told :
      (i high : ℕ) (rows : List Transfer)
      → between chain block_num (low i) rows ≡ []
      → first_block (window db chain block_num dep_num i rows) 0 ≤ high
      → high ≤ low (i + 1)
      → newest_first (between chain block_num high rows) ≡ window db chain block_num dep_num i rows
  window-told i high rows before le within =
      let joined =
        between-join chain block_num (low i) (low (i + 1)) rows (omega arith) (low-step i) before in
      let capped : All (AtMost high) (between chain block_num (low (i + 1)) rows) =
        rw joined (
          AtMost-le _ high _ le (newest_first-AtMost (between chain (low i) (low (i + 1)) rows))) in
      ap newest_first
        (sym (between-cut chain block_num high (low (i + 1)) rows within capped) ∙ joined)

  window-le :
      (i : ℕ) (rows : List Transfer)
      → first_block (window db chain block_num dep_num i rows) 0 ≤ low (i + 1)
  window-le i rows = newest_first-le (low (i + 1)) _ (between-high chain (low i) (low (i + 1)) rows)

  -- No row of the three tables before window `i`.
  abbrev Before : ℕ → Type 0
  Before i =
      (between chain block_num (low i) db.b_deposit_transaction ≡ [])
      × (between chain block_num (low i) db.b_withdraw_transaction ≡ [])
      × (between chain block_num (low i) (guardcalls db chain) ≡ [])

  window-Before :
      (i : ℕ) (rows : List Transfer)
      → between chain block_num (low i) rows ≡ []
      → length (window db chain block_num dep_num i rows) ≡ 0
      → between chain block_num (low (i + 1)) rows ≡ []
  window-Before i rows before h =
      between-join chain block_num (low i) (low (i + 1)) rows (omega arith) (low-step i) before
      ∙ newest_first-nil (between chain (low i) (low (i + 1)) rows) h

  read_window-Told :
      (i : ℕ) (b : Option ℕ)
      → Before i
      → let f = read_window db chain block_num dep_num i (nothing_found b) in
        Told f.block_num f.trxs
  unfolding read_window
  read_window-Told i b (bd, bw, bg) =
      let d = first_block (window db chain block_num dep_num i db.b_deposit_transaction) 0 in
      let w = first_block (window db chain block_num dep_num i db.b_withdraw_transaction) 0 in
      let g = first_block (window db chain block_num dep_num i (guardcalls db chain)) 0 in
      let ld = window-le i db.b_deposit_transaction in
      let lw = window-le i db.b_withdraw_transaction in
      let lg = window-le i (guardcalls db chain) in
      let high = max (max (max d w) g) block_num in
      let within : high ≤ low (i + 1) = ground arith in
      (
        high,
        refl,
        ground arith,
        rw
            (
              window-told i high db.b_deposit_transaction bd (ground arith) within,
              window-told i high db.b_withdraw_transaction bw (ground arith) within,
              window-told i high (guardcalls db chain) bg (ground arith) within,
            )
            refl,
      )

  read_window-empty :
      (i : ℕ) (b : Option ℕ)
      → length (read_window db chain block_num dep_num i (nothing_found b)).trxs ≡ 0
      → (length (window db chain block_num dep_num i db.b_deposit_transaction) ≡ 0)
        × (length (window db chain block_num dep_num i db.b_withdraw_transaction) ≡ 0)
        × (length (window db chain block_num dep_num i (guardcalls db chain)) ≡ 0)
  unfolding read_window
  read_window-empty i b h =
      let ds = window db chain block_num dep_num i db.b_deposit_transaction in
      let ws = window db chain block_num dep_num i db.b_withdraw_transaction in
      let (rest, g) =
        length_zero (ds ++ ws) (window db chain block_num dep_num i (guardcalls db chain)) h in
      let (d, w) = length_zero ds ws rest in (d, w, g)

  read_window-nothing :
      (i : ℕ) (b : Option ℕ)
      → length (read_window db chain block_num dep_num i (nothing_found b)).trxs ≡ 0
      → read_window db chain block_num dep_num i (nothing_found b) ≡ nothing_found (some block_num)
  unfolding read_window
  read_window-nothing i b h =
      let (d, w, g) = read_window-empty i b h in
      rw (nil_of _ d, nil_of _ w, nil_of _ g) (ap (λ n. nothing_found (some n)) (ground arith))

  read_windows-Told :
      (rounds i : ℕ) (b : Option ℕ)
      → (b ≡ some block_num) ⊎ (0 < rounds)
      → Before i
      → let f = read_windows db chain block_num dep_num rounds i (nothing_found b) in
        Told f.block_num f.trxs
  unfolding read_windows newest_first
  read_windows-Told zero i b (inl e) before = (
    block_num,
    e,
    omega arith,
    rw
        (
          between-none chain block_num block_num db.b_deposit_transaction (omega arith),
          between-none chain block_num block_num db.b_withdraw_transaction (omega arith),
          between-none chain block_num block_num (guardcalls db chain) (omega arith),
        )
        refl,
  )
  read_windows-Told zero i b (inr h) before = absurd (omega arith)
  read_windows-Told (suc rounds) i b c before =
      let f = read_window db chain block_num dep_num i (nothing_found b) in
      elim (Bool-cases (ltb 0 (length f.trxs))) [
        | inl e ↦ rw e (read_window-Told i b before)
        | inr e ↦
            let empty : length f.trxs ≡ 0 = ground arith in
            let (d, w, g) = read_window-empty i b empty in
            let (bd, bw, bg) = before in
            rw e (
              rw (read_window-nothing i b empty) (
                read_windows-Told rounds (i + 1) (some block_num) (inl refl) (
                  window-Before i db.b_deposit_transaction bd d,
                  window-Before i db.b_withdraw_transaction bw w,
                  window-Before i (guardcalls db chain) bg g,
                )))
      ]

  Before-start : Before 0
  Before-start = (
    between-none chain block_num (low 0) db.b_deposit_transaction (omega arith),
    between-none chain block_num (low 0) db.b_withdraw_transaction (omega arith),
    between-none chain block_num (low 0) (guardcalls db chain) (omega arith),
  )

  -- Whenever the number that the client gives is at most the collector's, the answer carries a
  -- number that is no lower, and exactly the deposits, withdrawals and guard calls of the chain
  -- after the client's number and up to the answer's, each once, and of each kind the newest first.
  pub history_from-Told :
      (current : ℕ)
      → block_num ≤ current
      → let answer = history_from db chain block_num dep_num current in Told answer.0 answer.1
  unfolding history_from window_count newest_first read_windows
  history_from-Told current le =
      let any =
        has_after chain block_num db.b_withdraw_transaction
        || has_after chain block_num db.b_deposit_transaction
        || has_after chain block_num (guardcalls db chain) in
      let rounds : 0 < window_count db chain block_num dep_num current = ground arith in
      elim (Bool-cases any) [
        | inl e ↦ rw e (
            read_windows-Told (window_count db chain block_num dep_num current) 0 none (inr rounds)
              Before-start)
        | inr e ↦ rw e (read_windows-Told zero 0 (some block_num) (inl refl) Before-start)
      ]
