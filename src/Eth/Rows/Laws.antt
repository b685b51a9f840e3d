-- ===== src/Eth/Rows/Laws.antt =====
-- What the writes to a collection do: to store a row a second time changes nothing.
use cross_chain_mid_ware.Base.{
  ◌≡◌, refl, ap, ◌∙◌, String, Bool, true, false, Option, none, some, List, [], ◌∷◌, ◌++◌, All,
  All-append, sym, arith, Bool-cases, inl, inr,
}
use cross_chain_mid_ware.Eth.Rows.{
  Index, no_index, number_index, text_index, Row, set_index, set_field, set_row, found, update,
  store, each,
}

set_index_self : (n o : Index) → set_index n (set_index n o) ≡ set_index n o
set_index_self no_index o = refl
set_index_self (number_index n) o = refl
set_index_self (text_index t) o = refl

set_field_self : (n o : Option String) → set_field n (set_field n o) ≡ set_field n o
set_field_self none o = refl
set_field_self (some s) o = refl

set_index_same : (n : Index) → set_index n n ≡ n
set_index_same no_index = refl
set_index_same (number_index n) = refl
set_index_same (text_index t) = refl

set_field_same : (n : Option String) → set_field n n ≡ n
set_field_same none = refl
set_field_same (some s) = refl

set_row_self : (new old : Row) → set_row new (set_row new old) ≡ set_row new old
unfolding set_row
set_row_self new old = simp (set_index_self, set_field_self)

set_row_same : (new : Row) → set_row new new ≡ new
unfolding set_row
set_row_same new = simp (set_index_same, set_field_same)

-- The query finds the row again after it is changed.
abbrev pub Keeps : (Row → Bool) → Row → Type 0
Keeps fits new = (fits new ≡ true) × ((r : Row) → fits r ≡ true → fits (set_row new r) ≡ true)

found-update :
    (fits : Row → Bool) (new : Row) (rows : List Row)
    → Keeps fits new
    → found fits (update fits new rows) ≡ found fits rows
unfolding found update
found-update fits new [] k = refl
found-update fits new (r ∷ rs) k = ground (arith, k.1 r, found-update fits new rs k)

update_again :
    (fits : Row → Bool) (new : Row) (rows : List Row)
    → Keeps fits new
    → update fits new (update fits new rows) ≡ update fits new rows
unfolding update
update_again fits new [] k = refl
update_again fits new (r ∷ rs) k =
    ground (arith, k.1 r, set_row_self new r, update_again fits new rs k)

found-append :
    (fits : Row → Bool) (new : Row) (rows : List Row)
    → fits new ≡ true
    → found fits (rows ++ new ∷ []) ≡ true
unfolding found
found-append fits new [] k = simp k
found-append fits new (r ∷ rs) k = ground (arith, found-append fits new rs k)

update-append :
    (fits : Row → Bool) (new : Row) (rows : List Row)
    → fits new ≡ true
    → found fits rows ≡ false
    → update fits new (rows ++ new ∷ []) ≡ rows ++ new ∷ []
unfolding found update
update-append fits new [] k h = simp (k, set_row_same new)
update-append fits new (r ∷ rs) k h = ground (arith, update-append fits new rs k)

pub store_again :
    (fits : Row → Bool) (new : Row) (rows : List Row)
    → Keeps fits new
    → store fits fits new (store fits fits new rows) ≡ store fits fits new rows
unfolding store
store_again fits new rows k = elim (Bool-cases (found fits rows)) [
  | inl e ↦ simp (e, found-update fits new rows k, update_again fits new rows k)
  | inr e ↦ simp (e, found-append fits new rows k.0, update-append fits new rows k.0 e)
]

-- Rows that fit the second query fit the first, which looks at more fields.
abbrev pub Implies : (Row → Bool) → (Row → Bool) → List Row → Type 0
Implies fits seen rows = All (λ r. (fits r ≡ true) → (seen r ≡ true)) rows

found-Implies :
    (seen fits : Row → Bool) (rows : List Row)
    → ((r : Row) → seen r ≡ true → fits r ≡ true)
    → Implies fits seen rows
    → found seen rows ≡ found fits rows
unfolding found
found-Implies seen fits [] k h = refl
found-Implies seen fits (r ∷ rs) k h = ground (arith, k r, h.0, found-Implies seen fits rs k h.1)

-- A loop keeps what each of its rounds keeps.
pub each_inv :
    {A S : Type 0} (P : S → Type 0) (body : A → S → S × Bool)
    → ((x : A) (s : S) → P s → P (body x s).0)
    → (xs : List A) (s : S) → P s
    → P (each body xs s).0
unfolding each
each_inv P body keep [] s h = h
each_inv P body keep (x ∷ xs) s h = elim (Bool-cases (body x s).1) [
  | inl e ↦ rw e (each_inv P body keep xs (body x s).0 (keep x s h))
  | inr e ↦ rw e (keep x s h)
]

update-Implies :
    (seen fits : Row → Bool) (new : Row) (rows : List Row)
    → ((r : Row) → seen (set_row new r) ≡ true)
    → Implies fits seen rows
    → Implies fits seen (update fits new rows)
unfolding update
update-Implies seen fits new [] k h = tt
update-Implies seen fits new (r ∷ rs) k h = elim (Bool-cases (fits r)) [
  | inl e ↦ rw e ((λ _. k r), h.1)
  | inr e ↦ rw e (h.0, update-Implies seen fits new rs k h.1)
]

store-Implies :
    (seen fits : Row → Bool) (new : Row) (rows : List Row)
    → seen new ≡ true
    → ((r : Row) → seen (set_row new r) ≡ true)
    → Implies fits seen rows
    → Implies fits seen (store seen fits new rows)
unfolding store
store-Implies seen fits new rows s k h = elim (Bool-cases (found seen rows)) [
  | inl e ↦ rw e (update-Implies seen fits new rows k h)
  | inr e ↦ rw e (All-append _ rows (new ∷ []) h ((λ _. s), tt))
]

store-by_fits :
    (seen fits : Row → Bool) (new : Row) (rows : List Row)
    → ((r : Row) → seen r ≡ true → fits r ≡ true)
    → Implies fits seen rows
    → store seen fits new rows ≡ store fits fits new rows
unfolding store
store-by_fits seen fits new rows k h = rw (found-Implies seen fits rows k h) refl

-- The same where the row is looked up by a query that asks for more.
pub store_again_seen :
    (seen fits : Row → Bool) (new : Row) (rows : List Row)
    → Keeps fits new
    → seen new ≡ true
    → ((r : Row) → seen (set_row new r) ≡ true)
    → ((r : Row) → seen r ≡ true → fits r ≡ true)
    → Implies fits seen rows
    → store seen fits new (store seen fits new rows) ≡ store seen fits new rows
store_again_seen seen fits new rows keep s k sub h =
    let once = store-by_fits seen fits new rows sub h in
    store-by_fits seen fits new (store seen fits new rows) sub
      (store-Implies seen fits new rows s k h)
    ∙ ap (store fits fits new) once
    ∙ store_again fits new rows keep
    ∙ sym once
