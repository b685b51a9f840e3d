-- ===== src/Collector/Record/Paid.antt =====
-- The withdrawals that are recorded for a transaction, against what its outputs pay.
use mathlib.Core.Path.{subst}
use mathlib.Core.List.{Perm}
use cross_chain_mid_ware.Base.{
  ℕ, ◌+◌, ◌≡◌, ◌≢◌, refl, ap, sym, ◌∙◌, String, Bool, true, false, ◌&&◌, ◌||◌, not, List, [], ◌∷◌,
  ◌++◌, map, arith, str_eq, eq_iff, Bool-cases, inl, inr, if◌then◌else◌,
}
use cross_chain_mid_ware.Base.Dict.{Dict, NodupKeys, has_key, add_to}
use cross_chain_mid_ware.Base.DictOrder.{DictOrder}
use cross_chain_mid_ware.Base.Result.{ok}
use cross_chain_mid_ware.Collector.Scan.{Entry, elem}
use cross_chain_mid_ware.Collector.Scan.Spec.{
  scanned, links, payments, totals, totals_onto, first, all_same,
}
use cross_chain_mid_ware.Collector.Record.{Transfers, transfer, record_trx}
use cross_chain_mid_ware.Collector.Record.Laws.{trx_type-scanned, record_trx-withdraw}

-- The address is one of the entries'.
abbrev pub is_among : String → List Entry → Bool
is_among a [] = false
is_among a (e ∷ es) = if str_eq e.address a then true else is_among a es

-- All that the entries give an address.
abbrev pub paid_to : String → List Entry → ℕ
paid_to a [] = 0
paid_to a (e ∷ es) = (if str_eq e.address a then e.value else 0) + paid_to a es

-- The address is in the list, and is not in it twice.
abbrev pub is_in : String → List String → Bool
is_in a [] = false
is_in a (b ∷ bs) = if str_eq b a then true else is_in a bs

abbrev pub NoneTwice : List String → Type 0
NoneTwice [] = Unit
NoneTwice (a ∷ rest) = (is_in a rest ≡ false) × NoneTwice rest

keys : Dict ℕ → List String
keys [] = []
keys ((k, v) ∷ d) = k ∷ keys d

amount_of : String → Dict ℕ → ℕ
amount_of k [] = 0
amount_of k ((j, v) ∷ d) = if str_eq j k then v else amount_of k d

is_in-keys : (k : String) (d : Dict ℕ) → is_in k (keys d) ≡ has_key k d
unfolding keys has_key
is_in-keys k [] = refl
is_in-keys k ((j, v) ∷ d) = ground (arith, is_in-keys k d)

keys-NoneTwice : (d : Dict ℕ) → NodupKeys d → NoneTwice (keys d)
unfolding keys
keys-NoneTwice [] u = tt
keys-NoneTwice ((j, v) ∷ d) u = (is_in-keys j d ∙ u.0, keys-NoneTwice d u.1)

has_key-add_to :
    (k j : String) (v : ℕ) (d : Dict ℕ) → has_key j (add_to k v d) ≡ (str_eq k j || has_key j d)
unfolding has_key add_to
has_key-add_to k j v [] = ground arith
has_key-add_to k j v ((i, w) ∷ d) =
    ground (arith, eq_iff k j, eq_iff i k, eq_iff i j, has_key-add_to k j v d)

amount_of-add_to :
    (k j : String) (v : ℕ) (d : Dict ℕ)
    → amount_of j (add_to k v d) ≡ amount_of j d + (if str_eq k j then v else 0)
unfolding amount_of add_to
amount_of-add_to k j v [] = ground arith
amount_of-add_to k j v ((i, w) ∷ d) =
    ground (arith, eq_iff k j, eq_iff i k, eq_iff i j, amount_of-add_to k j v d)

add_to-NodupKeys : (k : String) (v : ℕ) (d : Dict ℕ) → NodupKeys d → NodupKeys (add_to k v d)
unfolding add_to has_key
add_to-NodupKeys k v [] u = (refl, tt)
add_to-NodupKeys k v ((j, w) ∷ d) u =
    ground (arith, add_to-NodupKeys k v d u.1, has_key-add_to k j v d, eq_iff j k, eq_iff k j)

totals_onto-NodupKeys : (es : List Entry) (d : Dict ℕ) → NodupKeys d → NodupKeys (totals_onto es d)
unfolding totals_onto
totals_onto-NodupKeys [] d u = u
totals_onto-NodupKeys (e ∷ es) d u =
    totals_onto-NodupKeys es (add_to e.address e.value d) (add_to-NodupKeys e.address e.value d u)

has_key-totals_onto :
    (k : String) (es : List Entry) (d : Dict ℕ)
    → has_key k (totals_onto es d) ≡ (is_among k es || has_key k d)
unfolding totals_onto
has_key-totals_onto k [] d = ground arith
has_key-totals_onto k (e ∷ es) d = ground (
  arith,
  has_key-totals_onto k es (add_to e.address e.value d),
  has_key-add_to e.address k e.value d,
)

amount_of-totals_onto :
    (k : String) (es : List Entry) (d : Dict ℕ)
    → amount_of k (totals_onto es d) ≡ amount_of k d + paid_to k es
unfolding totals_onto
amount_of-totals_onto k [] d = omega arith
amount_of-totals_onto k (e ∷ es) d = omega (
  arith,
  amount_of-totals_onto k es (add_to e.address e.value d),
  amount_of-add_to e.address k e.value d,
)

same_key : (a k : String) (d : Dict ℕ) → str_eq a k ≡ true → has_key a d ≡ has_key k d
same_key a k d h = ap (λ b. has_key b d) ((eq_iff a k).0 h)

has_key-totals : (es : List Entry) (k : String) → has_key k (totals es) ≡ is_among k es
unfolding has_key
has_key-totals es k = ground (arith, has_key-totals_onto k es [])

-- The outputs that go to no input's address.
is_among-payments :
    (k : String) (d : Dict ℕ) (es : List Entry)
    → is_among k (payments d es) ≡ (is_among k es && not (has_key k d))
unfolding payments
is_among-payments k d [] = refl
is_among-payments k d (e ∷ es) = elim (Bool-cases (has_key e.address d)) [
  | inl h ↦ rw h (ground (arith, h, same_key e.address k d, is_among-payments k d es))
  | inr h ↦ rw h (ground (arith, h, same_key e.address k d, is_among-payments k d es))
]

paid_to-payments :
    (k : String) (d : Dict ℕ) (es : List Entry)
    → has_key k d ≡ false
    → paid_to k (payments d es) ≡ paid_to k es
unfolding payments
paid_to-payments k d [] h = refl
paid_to-payments k d (e ∷ es) h = elim (Bool-cases (has_key e.address d)) [
  | inl m ↦ rw m (ground (arith, m, h, same_key e.address k d, paid_to-payments k d es h))
  | inr m ↦ rw m (ground (arith, paid_to-payments k d es h))
]

amount_of-paid :
    (d : Dict ℕ) (es : List Entry) (k : String)
    → has_key k (totals (payments d es)) ≡ true
    → amount_of k (totals (payments d es)) ≡ paid_to k es
unfolding amount_of
amount_of-paid d es k h =
    let among = sym (has_key-totals (payments d es) k) ∙ h in
    let new : has_key k d ≡ false = ground (arith, among, is_among-payments k d es) in
    amount_of-totals_onto k (payments d es) [] ∙ omega (arith, paid_to-payments k d es new)

map-values :
    {B : Type 0} (f : String → ℕ → B) (g : String → ℕ) (d : Dict ℕ)
    → NodupKeys d
    → ((k : String) → has_key k d ≡ true → amount_of k d ≡ g k)
    → map (λ kv. f kv.0 kv.1) d ≡ map (λ k. f k (g k)) (keys d)
unfolding keys amount_of has_key
map-values f g [] u h = refl
map-values f g ((j, v) ∷ d) u h =
    let head : v ≡ g j = ground (arith, h j, eq_iff j j) in
    let rest =
      map-values f g d u.1
        (λ k m. let same = same_key j k d in ground (arith, h k, m, u.0, same)) in
    cc (head, rest)

module _ (multisig : List String) (no_empty : elem "" multisig ≡ false) (amount_text : ℕ → String)
    (symbol : String) where
  -- For a transaction whose multisig inputs, of which there are some, all have one address, and of
  -- whose outputs none but change goes to a multisig address: one withdrawal is recorded for each
  -- address that an output goes to and no input comes from, and no others; it is from the multisig
  -- address, and of all that the outputs pay that address. No deposit is recorded.
  pub record_trx-payees :
      (order : DictOrder ℕ) (txid : String) (block_num : ℕ) (ins outs : List Entry)
      (c c' : Transfers)
      → links multisig ins ≢ []
      → all_same (links multisig ins) ≡ true
      → links multisig (payments (totals ins) outs) ≡ []
      → record_trx order amount_text symbol txid block_num (scanned multisig ins outs) c ≡ ok c'
      → (c'.deposits ≡ c.deposits)
        × (payees : List String) × NoneTwice payees
        × ((a : String) → is_in a payees ≡ (is_among a outs && not (is_among a ins)))
        × Perm c'.withdraws (
            c.withdraws
            ++ map
                (λ a.
                  transfer order amount_text symbol txid block_num
                    (first (links multisig ins))
                    a
                    (paid_to a outs))
                payees)
  record_trx-payees order txid block_num ins outs c c' some_in same none_out h =
      let kind = (trx_type-scanned multisig no_empty ins outs).1.1 (some_in, same, none_out) in
      let paid = payments (totals ins) outs in
      let nodup = totals_onto-NodupKeys paid [] tt in
      let (deposits, withdraws) =
        record_trx-withdraw amount_text symbol order txid block_num (scanned multisig ins outs) c c'
          kind nodup h in
      let from_in : (a : String) → has_key a (totals ins) ≡ is_among a ins =
        λ a. has_key-totals ins a in
      (
        deposits,
        keys (totals paid),
        keys-NoneTwice (totals paid) nodup,
        λ a.
            is_in-keys a (totals paid)
            ∙ has_key-totals paid a
            ∙ is_among-payments a (totals ins) outs
            ∙ ap (λ b. is_among a outs && not b) (from_in a),
        subst (λ rows. Perm c'.withdraws (c.withdraws ++ rows))
            (map-values
              (transfer order amount_text symbol txid block_num (first (links multisig ins)))
              (λ a. paid_to a outs) (totals paid) nodup (amount_of-paid (totals ins) outs))
            withdraws,
      )
