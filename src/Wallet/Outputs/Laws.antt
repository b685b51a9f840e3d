-- ===== src/Wallet/Outputs/Laws.antt =====
-- What the outputs of a transaction add up to.
use mathlib.Core.Option.{some-injective}
use cross_chain_mid_ware.Base.{
  ℕ, ◌≤◌, String, ◌≡◌, inl, inr, refl, ap, ◌∙◌, suc, length, Option, none, some, [], ◌∷◌, arith,
  str_eq, Bool, true, false, Bool-cases, ltb, if◌then◌else◌,
}
use cross_chain_mid_ware.Base.Int.{ℤ, pos, ◌+ℤ◌, int_laws, parts_of_eq}
use cross_chain_mid_ware.Base.Dict.{Dict, lookup, insert, has_key, lookup-insert, NodupKeys}
use cross_chain_mid_ware.Wallet.Outputs.{dest_vouts, dest_amount, total_out, add_change, dust}

pub total_out-dest_vouts : (d : Dict ℕ) → total_out (dest_vouts d) ≡ pos (dest_amount d)
unfolding total_out dest_vouts dest_amount
total_out-dest_vouts [] = refl
total_out-dest_vouts ((a, n) ∷ d) = rw (total_out-dest_vouts d) (omega int_laws)

pub length-dest_vouts : (d : Dict ℕ) → length (dest_vouts d) ≡ length d
unfolding dest_vouts
length-dest_vouts [] = refl
length-dest_vouts ((a, n) ∷ d) = ap suc (length-dest_vouts d)

pub has_key-dest_vouts : (k : String) (d : Dict ℕ) → has_key k (dest_vouts d) ≡ has_key k d
unfolding dest_vouts has_key
has_key-dest_vouts k [] = refl
has_key-dest_vouts k ((a, n) ∷ d) = ground (arith, has_key-dest_vouts k d)

pub NodupKeys-dest_vouts : (d : Dict ℕ) → NodupKeys d → NodupKeys (dest_vouts d)
unfolding dest_vouts
NodupKeys-dest_vouts [] u = tt
NodupKeys-dest_vouts ((a, n) ∷ d) u = (has_key-dest_vouts a d ∙ u.0, NodupKeys-dest_vouts d u.1)

pub total_out-insert_new :
    (k : String) (v : ℤ) (d : Dict ℤ)
    → lookup k d ≡ none
    → total_out (insert k v d) ≡ total_out d +ℤ v
unfolding total_out insert lookup
total_out-insert_new k v [] h = omega int_laws
total_out-insert_new k v ((j, w) ∷ d) h = elim (Bool-cases (str_eq j k)) [
  | inl e ↦ cc
  | inr e ↦ rw e (omega (int_laws, parts_of_eq (total_out-insert_new k v d (rw e at h))))
]

pub total_out-insert_old :
    (k : String) (v w : ℤ) (d : Dict ℤ)
    → lookup k d ≡ some w
    → total_out (insert k v d) +ℤ w ≡ total_out d +ℤ v
unfolding total_out insert lookup
total_out-insert_old k v w [] h = cc
total_out-insert_old k v w ((j, u) ∷ d) h = elim (Bool-cases (str_eq j k)) [
  | inl e ↦ rw (e, ← some-injective u w (rw e at h)) (omega int_laws)
  | inr e ↦ rw e (omega (int_laws, parts_of_eq (total_out-insert_old k v w d (rw e at h))))
]

-- What is left to the miner of the change.
pub left_over : String → ℕ → Dict ℤ → ℕ
left_over from_addr change vouts = elim (lookup from_addr vouts) [
  | some v ↦ 0
  | none ↦ if ltb dust change then 0 else change
]

pub left_over-le : (a : String) (change : ℕ) (d : Dict ℤ) → left_over a change d ≤ dust
unfolding left_over
left_over-le a change d = ground arith

pub total_out-add_change :
    (a : String) (change : ℕ) (d : Dict ℤ)
    → total_out (add_change a change d) +ℤ pos (left_over a change d) ≡ total_out d +ℤ pos change
unfolding add_change left_over
total_out-add_change a change d = split (lookup a d) refl
  where
    small :
        lookup a d ≡ none
        → (b : Bool)
        → total_out (if b then insert a (pos change) d else d) +ℤ pos (if b then 0 else change)
          ≡ total_out d +ℤ pos change
    small e true = omega (int_laws, parts_of_eq (total_out-insert_new a (pos change) d e))
    small e false = refl

    split :
        (o : Option ℤ)
        → lookup a d ≡ o
        → total_out (add_change a change d) +ℤ pos (left_over a change d)
          ≡ total_out d +ℤ pos change
    split none e = rw (e, add_change, left_over) (small e (ltb dust change))
    split (some v) e =
        rw (e, add_change, left_over)
          (omega (int_laws, parts_of_eq (total_out-insert_old a (pos change +ℤ v) v d e)))

lookup-insert_ne :
    (a k : String) (v : ℤ) (d : Dict ℤ) → str_eq a k ≡ false → lookup k (insert a v d) ≡ lookup k d
lookup-insert_ne a k v d ne = lookup-insert a k v d ∙ rw ne

-- The change touches no address but the sender's.
pub lookup-add_change :
    (a k : String) (change : ℕ) (d : Dict ℤ)
    → str_eq a k ≡ false
    → lookup k (add_change a change d) ≡ lookup k d
unfolding add_change
lookup-add_change a k change d ne = either (lookup a d) refl
  where
    either : (o : Option ℤ) → lookup a d ≡ o → lookup k (add_change a change d) ≡ lookup k d
    either none e = rw (e, add_change) (ground (arith, lookup-insert_ne a k (pos change) d ne))
    either (some v) e = rw (e, add_change) (lookup-insert_ne a k (pos change +ℤ v) d ne)
