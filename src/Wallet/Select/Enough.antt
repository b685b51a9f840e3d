-- ===== src/Wallet/Select/Enough.antt =====
-- When the chosen coins cover the need.
use cross_chain_mid_ware.Base.{
  ℕ, zero, suc, ◌+◌, ◌-◌, ◌≤◌, ◌<◌, ◌≡◌, ◌≢◌, ◌↔◌, refl, ◌⊎◌, Option, none, some, List, [], ◌∷◌,
  arith, length, get_elem?, sum_by, inl, inr, All,
}
use cross_chain_mid_ware.Wallet.Select.{
  TxOut, Selection, nothing, use_out, use_unless_used, find_backup, accumulate, top_up, first_loop,
  second_loop, third_loop, select,
}
use cross_chain_mid_ware.Wallet.Select.Laws.{select-IsSelection, first_loop-none, spent-le}

accumulate-enough :
    (need : ℕ) (xs : List TxOut) (i : ℕ) (s : Selection)
    → need ≤ s.total + sum_by TxOut.amount xs
    → need ≤ (accumulate need xs i s).total
unfolding accumulate
accumulate-enough need [] i s h = omega arith
accumulate-enough need (x ∷ xs) i s h =
    ground (arith, accumulate-enough need xs (i + 1) (use_out x i s))

use_unless_used-grows :
    (i : ℕ) (o : Option TxOut) (s : Selection) → s.total ≤ (use_unless_used i o s).total
use_unless_used-grows i none s = omega arith
use_unless_used-grows i (some x) s = ground arith

top_up-grows :
    (t : List TxOut) (rounds i : ℕ) (s : Selection) → s.total ≤ (top_up t rounds i s).total
unfolding top_up
top_up-grows t zero i s = omega arith
top_up-grows t (suc rounds) i s =
    let cur = length t - i - 1 in
    omega (
      arith,
      use_unless_used-grows cur (get_elem? t cur) s,
      top_up-grows t rounds (i + 1) (use_unless_used cur (get_elem? t cur) s),
    )

third_loop-grows :
    (many few : ℕ) (t : List TxOut) (s : Selection) → s.total ≤ (third_loop many few t s).total
third_loop-grows many few t s = ground (arith, top_up-grows t (few - length s.vin_need) 0 s)

abbrev Covers : ℕ → Option (ℕ × TxOut) → Type 0
Covers need none = Unit
Covers need (some (i, x)) = need ≤ x.amount

abbrev AllCover : ℕ → List TxOut → Type 0
AllCover need = All (λ x. need ≤ x.amount)

-- An index that the first loop found was used, or each output alone covers the need.
find_backup-enough :
    (need : ℕ) (xs : List TxOut) (i : ℕ) (bak : Option (ℕ × TxOut))
    → Covers need bak
    → (find_backup need xs i bak nothing).0 ≢ none
    → (need ≤ (find_backup need xs i bak nothing).1.total)
      ⊎ (((find_backup need xs i bak nothing).1 ≡ nothing) × AllCover need xs)
unfolding find_backup
find_backup-enough need [] i bak c h = inr (refl, tt)
find_backup-enough need (x ∷ xs) i none c h =
    ground (arith, find_backup-enough need xs (i + 1) (some (i, x)))
find_backup-enough need (x ∷ xs) i (some (j, y)) c h =
    ground (arith, find_backup-enough need xs (i + 1) (some (i, x)))

get_elem?-in_range :
    (t : List TxOut) (i : ℕ) → i < length t → (x : TxOut) × (get_elem? t i ≡ some x)
get_elem?-in_range [] i h = absurd (omega arith)
get_elem?-in_range (x ∷ t) zero h = (x, refl)
get_elem?-in_range (x ∷ t) (suc i) h = get_elem?-in_range t i (omega arith)

AllCover-get_elem? :
    (need : ℕ) (t : List TxOut) (i : ℕ) (x : TxOut)
    → AllCover need t
    → get_elem? t i ≡ some x
    → need ≤ x.amount
AllCover-get_elem? need [] i x a h = cc
AllCover-get_elem? need (y ∷ t) zero x a h = ground arith
AllCover-get_elem? need (y ∷ t) (suc i) x a h = AllCover-get_elem? need t i x a.1 h

top_up-enough :
    (need : ℕ) (t : List TxOut) (few : ℕ)
    → 0 < few
    → 0 < length t
    → AllCover need t
    → need ≤ (top_up t few 0 nothing).total
unfolding top_up
top_up-enough need t zero f l a = absurd (omega arith)
top_up-enough need t (suc few) f l a =
    let cur = length t - 0 - 1 in
    let (x, e) = get_elem?-in_range t cur (omega arith) in
    omega (
      arith,
      top_up-grows t few (0 + 1) (use_unless_used cur (get_elem? t cur) nothing),
      used cur x e (AllCover-get_elem? need t cur x a e),
    )
  where
    used :
        (i : ℕ) (x : TxOut)
        → get_elem? t i ≡ some x
        → need ≤ x.amount
        → need ≤ (use_unless_used i (get_elem? t i) nothing).total
    used i x e h = rw e (omega arith)

third_loop-enough :
    (many few need : ℕ) (t : List TxOut)
    → 0 < few
    → many < length t
    → AllCover need t
    → need ≤ (third_loop many few t nothing).total
third_loop-enough many few need t f l a = ground (arith, top_up-enough need t few f)

loops-enough :
    (many few need : ℕ) (t : List TxOut) (r : Option (ℕ × TxOut) × Selection)
    → 0 < few
    → need ≤ sum_by TxOut.amount t
    → (r.0 ≡ none → r.1 ≡ nothing)
    → (r.0 ≢ none → (need ≤ r.1.total) ⊎ ((r.1 ≡ nothing) × (many < length t) × AllCover need t))
    → need ≤ (third_loop many few t (second_loop need t r)).total
loops-enough many few need t (none, s) f h n e = omega (
  arith,
  third_loop-grows many few t (accumulate need t 0 s),
  accumulate-enough need t 0 s (omega arith),
)
loops-enough many few need t (some p, s) f h n e = elim (e (λ q. cc)) [
  | inl le ↦ omega (arith, third_loop-grows many few t s)
  | inr all ↦ rw all.0 (third_loop-enough many few need t f all.1 all.2)
]

first_loop-enough :
    (many need : ℕ) (t : List TxOut)
    → (first_loop many need t).0 ≢ none
    → (need ≤ (first_loop many need t).1.total)
      ⊎ (((first_loop many need t).1 ≡ nothing) × (many < length t) × AllCover need t)
first_loop-enough many need t h = ground (arith, find_backup-enough need t 0 none)

-- The coins chosen cover the need exactly when all the coins together do (at least one coin being
-- allowed for topping up): a refusal for want of funds is never due to the way coins are chosen.
pub select-enough :
    (many few need : ℕ) (t : List TxOut)
    → 0 < few
    → (need ≤ (select many few need t).total) ↔ (need ≤ sum_by TxOut.amount t)
select-enough many few need t f = (
  λ h. omega (
    arith,
    (select-IsSelection many few need t).once,
    spent-le (select many few need t).use_idx t 0,
  ),
  λ h.
      unfold select in
      loops-enough many few need t (first_loop many need t) f h (first_loop-none many need t)
        (first_loop-enough many need t),
)
