-- ===== src/Wallet/Select/Laws.antt =====
-- What the choice of coins keeps: it uses an output at most once, and its sum is what it uses.
use mathlib.Core.Option.{some-injective}
use cross_chain_mid_ware.Base.{
  ℕ, zero, suc, ◌+◌, ◌-◌, ◌≤◌, ◌<◌, ◌≡◌, ◌≢◌, refl, ap, sym, ◌∙◌, true, false, Option, none, some,
  List, [], ◌∷◌, ◌++◌, arith, length, get_elem?, sum_by, ◌==◌, ◌&&◌, ltb, if◌then◌else◌, leb,
  sum_by-append, Bool-cases, inl, inr,
}
use cross_chain_mid_ware.Wallet.Select.{
  TxOut, Selection, nothing, use_out, use_backup, use_unless_used, contains, find_backup,
  accumulate, top_up, first_loop, second_loop, select,
}

-- What the indices `is` point at in `txout`, from index `i`, each counted once.
abbrev pub spent : List ℕ → List TxOut → ℕ → ℕ
spent is [] i = 0
spent is (x ∷ xs) i = (if contains i is then x.amount else 0) + spent is xs (i + 1)

abbrev pub Picks : List TxOut → List ℕ → List TxOut → Type 0
Picks txout [] [] = Unit
Picks txout (i ∷ is) (x ∷ xs) = (get_elem? txout i ≡ some x) × Picks txout is xs
Picks txout _ _ = ⊥

abbrev pub Distinct : List ℕ → Type 0
Distinct [] = Unit
Distinct (i ∷ is) = (contains i is ≡ false) × Distinct is

-- The chosen outputs are those at the indices, no index occurs twice, and the sum is theirs.
pub record IsSelection (txout : List TxOut) (s : Selection) : Type 0 where
  pub picks : Picks txout s.use_idx s.vin_need
  pub distinct : Distinct s.use_idx
  pub adds_up : s.total ≡ sum_by TxOut.amount s.vin_need
  pub once : s.total ≡ spent s.use_idx txout 0

contains-append_one :
    (i j : ℕ) (is : List ℕ) → contains j (is ++ i ∷ []) ≡ (if i == j then true else contains j is)
contains-append_one i j [] = refl
contains-append_one i j (k ∷ is) = ground (arith, contains-append_one i j is)

Distinct-append_one :
    (i : ℕ) (is : List ℕ) → contains i is ≡ false → Distinct is → Distinct (is ++ i ∷ [])
Distinct-append_one i [] h d = (refl, tt)
Distinct-append_one i (k ∷ is) h d =
    ground (arith, contains-append_one i k is, Distinct-append_one i is)

Picks-append_one :
    (t : List TxOut) (i : ℕ) (x : TxOut) (is : List ℕ) (xs : List TxOut)
    → get_elem? t i ≡ some x
    → Picks t is xs
    → Picks t (is ++ i ∷ []) (xs ++ x ∷ [])
Picks-append_one t i x [] [] h p = (h, tt)
Picks-append_one t i x (j ∷ is) (y ∷ xs) h p = (p.0, Picks-append_one t i x is xs h p.1)
Picks-append_one t i x [] (y ∷ xs) h p = absurd p
Picks-append_one t i x (j ∷ is) [] h p = absurd p

-- An index that lies before the list is spent on nothing of it.
spent-append_before :
    (i k : ℕ) (is : List ℕ) (t : List TxOut) → i < k → spent (is ++ i ∷ []) t k ≡ spent is t k
spent-append_before i k is [] h = refl
spent-append_before i k is (x ∷ t) h =
    ground (arith, contains-append_one i k is, spent-append_before i (k + 1) is t)

-- One more index that is not used yet spends the amount that it points at.
spent-append_one :
    (i j k : ℕ) (x : TxOut) (is : List ℕ) (t : List TxOut)
    → j ≡ k + i
    → get_elem? t i ≡ some x
    → contains j is ≡ false
    → spent (is ++ j ∷ []) t k ≡ spent is t k + x.amount
spent-append_one i j k x is [] e h c = cc
spent-append_one zero j k x is (y ∷ t) e h c = ground (
  arith,
  ap TxOut.amount (some-injective y x h),
  contains-append_one j k is,
  spent-append_before j (k + 1) is t,
)
spent-append_one (suc i) j k x is (y ∷ t) e h c =
    ground (arith, contains-append_one j k is, spent-append_one i j (k + 1) x is t)

pub use_out-IsSelection :
    (t : List TxOut) (i : ℕ) (x : TxOut) (s : Selection)
    → get_elem? t i ≡ some x
    → contains i s.use_idx ≡ false
    → IsSelection t s
    → IsSelection t (use_out x i s)
use_out-IsSelection t i x s h c v = record {
  picks = Picks-append_one t i x s.use_idx s.vin_need h v.picks;
  distinct = Distinct-append_one i s.use_idx c v.distinct;
  adds_up = omega (arith, v.adds_up, sum_by-append TxOut.amount s.vin_need (x ∷ []));
  once = omega (arith, v.once, spent-append_one i i 0 x s.use_idx t (omega arith) h c);
}

-- The rest `xs` of `t` that begins at index `i`.
abbrev pub IsRest : List TxOut → List TxOut → ℕ → Type 0
IsRest t xs i = (k : ℕ) → get_elem? xs k ≡ get_elem? t (i + k)

IsRest-tail :
    (t : List TxOut) (x : TxOut) (xs : List TxOut) (i : ℕ)
    → IsRest t (x ∷ xs) i
    → IsRest t xs (i + 1)
IsRest-tail t x xs i r k = r (suc k) ∙ ap (get_elem? t) (omega arith)

IsRest-head :
    (t : List TxOut) (x : TxOut) (xs : List TxOut) (i : ℕ)
    → IsRest t (x ∷ xs) i
    → get_elem? t i ≡ some x
IsRest-head t x xs i r = ap (get_elem? t) (omega arith) ∙ sym (r 0)

-- No index from `i` on is used.
abbrev pub IsBelow : ℕ → List ℕ → Type 0
IsBelow i is = (j : ℕ) → i ≤ j → contains j is ≡ false

IsBelow-append_one : (i : ℕ) (is : List ℕ) → IsBelow i is → IsBelow (i + 1) (is ++ i ∷ [])
IsBelow-append_one i is b j h = ground (arith, contains-append_one i j is, b j)

pub accumulate-IsSelection :
    (t : List TxOut) (need : ℕ) (xs : List TxOut) (i : ℕ) (s : Selection)
    → IsRest t xs i
    → IsBelow i s.use_idx
    → IsSelection t s
    → IsSelection t (accumulate need xs i s)
unfolding accumulate
accumulate-IsSelection t need [] i s r b v = v
accumulate-IsSelection t need (x ∷ xs) i s r b v = elim (Bool-cases (leb need s.total)) [
  | inl e ↦ rw e v
  | inr e ↦ rw e (
      accumulate-IsSelection t need xs (i + 1) (use_out x i s) (IsRest-tail t x xs i r)
        (IsBelow-append_one i s.use_idx b)
        (use_out-IsSelection t i x s (IsRest-head t x xs i r) (b i (omega arith)) v))
]

-- The index found points at the output kept with it.
abbrev pub IsFound : List TxOut → Option (ℕ × TxOut) → Type 0
IsFound t none = Unit
IsFound t (some (i, x)) = get_elem? t i ≡ some x

nothing-IsSelection : (t : List TxOut) → IsSelection t nothing
nothing-IsSelection t = record { picks = tt; distinct = tt; adds_up = refl; once = spent_none t 0 }
  where
    spent_none : (t : List TxOut) (i : ℕ) → 0 ≡ spent [] t i
    spent_none [] i = refl
    spent_none (x ∷ t) i = spent_none t (i + 1) ∙ omega arith

use_backup-IsSelection :
    (t : List TxOut) (bak : Option (ℕ × TxOut))
    → IsFound t bak
    → IsSelection t (use_backup bak nothing)
use_backup-IsSelection t none f = nothing-IsSelection t
use_backup-IsSelection t (some (i, x)) f =
    use_out-IsSelection t i x nothing f refl (nothing-IsSelection t)

find_backup-IsSelection :
    (t : List TxOut) (need : ℕ) (xs : List TxOut) (i : ℕ) (bak : Option (ℕ × TxOut))
    → IsRest t xs i
    → IsFound t bak
    → IsSelection t (find_backup need xs i bak nothing).1
unfolding find_backup
find_backup-IsSelection t need [] i bak r f = nothing-IsSelection t
find_backup-IsSelection t need (x ∷ xs) i bak r f = elim (Bool-cases (leb need x.amount)) [
  | inl e ↦ rw e (
      find_backup-IsSelection t need xs (i + 1) (some (i, x)) (IsRest-tail t x xs i r)
        (IsRest-head t x xs i r))
  | inr e ↦ rw e (use_backup-IsSelection t bak f)
]

find_backup-some :
    (need : ℕ) (xs : List TxOut) (i : ℕ) (p : ℕ × TxOut) (s : Selection)
    → (find_backup need xs i (some p) s).0 ≢ none
unfolding find_backup
find_backup-some need [] i p s h = cc
find_backup-some need (x ∷ xs) i p s h = ground (arith, find_backup-some need xs (i + 1) (i, x) s)

-- Without an index found nothing has been used yet.
find_backup-none :
    (need : ℕ) (xs : List TxOut) (i : ℕ) (bak : Option (ℕ × TxOut))
    → (find_backup need xs i bak nothing).0 ≡ none
    → (find_backup need xs i bak nothing).1 ≡ nothing
unfolding find_backup
find_backup-none need [] i bak h = refl
find_backup-none need (x ∷ xs) i bak h =
    ground (arith, find_backup-some need xs (i + 1) (i, x) nothing)

use_unless_used-IsSelection :
    (t : List TxOut) (i : ℕ) (o : Option TxOut) (s : Selection)
    → get_elem? t i ≡ o
    → IsSelection t s
    → IsSelection t (use_unless_used i o s)
use_unless_used-IsSelection t i none s h v = v
use_unless_used-IsSelection t i (some x) s h v = elim (Bool-cases (contains i s.use_idx)) [
  | inl e ↦ rw e v
  | inr e ↦ rw e (use_out-IsSelection t i x s h e v)
]

top_up-IsSelection :
    (t : List TxOut) (rounds i : ℕ) (s : Selection)
    → IsSelection t s
    → IsSelection t (top_up t rounds i s)
unfolding top_up
top_up-IsSelection t zero i s v = v
top_up-IsSelection t (suc rounds) i s v =
    let cur = length t - i - 1 in
    top_up-IsSelection t rounds (i + 1) (use_unless_used cur (get_elem? t cur) s)
      (use_unless_used-IsSelection t cur (get_elem? t cur) s refl v)

first_loop-IsSelection : (many need : ℕ) (t : List TxOut) → IsSelection t (first_loop many need t).1
first_loop-IsSelection many need t = elim (Bool-cases (ltb many (length t))) [
  | inl e ↦ rw e (find_backup-IsSelection t need t 0 none (λ k. ap (get_elem? t) (omega arith)) tt)
  | inr e ↦ rw e (nothing-IsSelection t)
]

pub first_loop-none :
    (many need : ℕ) (t : List TxOut)
    → (first_loop many need t).0 ≡ none
    → (first_loop many need t).1 ≡ nothing
first_loop-none many need t h = ground (arith, find_backup-none need t 0 none)

second_loop-IsSelection :
    (need : ℕ) (t : List TxOut) (r : Option (ℕ × TxOut) × Selection)
    → (r.0 ≡ none → r.1 ≡ nothing)
    → IsSelection t r.1
    → IsSelection t (second_loop need t r)
second_loop-IsSelection need t (none, s) h v = rw (h refl) (
    accumulate-IsSelection t need t 0 nothing (λ k. ap (get_elem? t) (omega arith)) (λ j _. refl)
      (nothing-IsSelection t))
second_loop-IsSelection need t (some p, s) h v = v

-- Whatever the outputs and the need, the outputs chosen are outputs of the list at the indices
-- recorded, no index is recorded twice, and the sum is the sum of their amounts, each output
-- counted once.
pub select-IsSelection :
    (many few need : ℕ) (t : List TxOut) → IsSelection t (select many few need t)
unfolding select
select-IsSelection many few need t =
    let s = second_loop need t (first_loop many need t) in
    let v =
      second_loop-IsSelection need t (first_loop many need t) (first_loop-none many need t)
        (first_loop-IsSelection many need t) in
    elim (Bool-cases (ltb many (length t) && ltb (length s.vin_need) few)) [
      | inl e ↦ rw e (top_up-IsSelection t (few - length s.vin_need) 0 s v)
      | inr e ↦ rw e v
    ]

pub spent-le : (is : List ℕ) (t : List TxOut) (i : ℕ) → spent is t i ≤ sum_by TxOut.amount t
spent-le is [] i = omega arith
spent-le is (x ∷ t) i = ground (arith, spent-le is t (i + 1))
