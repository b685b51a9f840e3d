-- ===== src/Collector/Store/Laws.antt =====
-- What the clean-up and the flush do to the transfers of one chain.
use cross_chain_mid_ware.Base.{
  ℕ, ◌≤◌, ◌<◌, ◌≡◌, refl, ◌∙◌, String, true, some, List, [], ◌∷◌, ◌++◌, arith, str_eq, eq_refl, leb,
  if◌then◌else◌, All,
}
use cross_chain_mid_ware.Base.Dict.{Dict, lookup, has_key, lookup-insert}
use cross_chain_mid_ware.Collector.Record.{Transfer}
use cross_chain_mid_ware.Collector.Store.{remove_transfers, update_config}

-- The transfers of a chain.
unfoldable pub of_chain : String → List Transfer → List Transfer
of_chain chain [] = []
of_chain chain (t ∷ ts) =
    let rest = of_chain chain ts in if str_eq t.chain_id chain then t ∷ rest else rest

-- Those of blocks below `n`.
unfoldable pub below : ℕ → List Transfer → List Transfer
below n [] = []
below n (t ∷ ts) = let rest = below n ts in if leb n t.block_num then rest else t ∷ rest

pub of_chain-remove_transfers :
    (chain : String) (n : ℕ) (ts : List Transfer)
    → of_chain chain (remove_transfers chain n ts) ≡ below n (of_chain chain ts)
unfolding of_chain remove_transfers below
of_chain-remove_transfers chain n [] = refl
of_chain-remove_transfers chain n (t ∷ ts) = ground (arith, of_chain-remove_transfers chain n ts)

pub of_chain-append :
    (chain : String) (ts us : List Transfer)
    → of_chain chain (ts ++ us) ≡ of_chain chain ts ++ of_chain chain us
unfolding of_chain
of_chain-append chain [] us = refl
of_chain-append chain (t ∷ ts) us = ground (arith, of_chain-append chain ts us)

pub below-append : (n : ℕ) (ts us : List Transfer) → below n (ts ++ us) ≡ below n ts ++ below n us
unfolding below
below-append n [] us = refl
below-append n (t ∷ ts) us = ground (arith, below-append n ts us)

-- The transfers of one block of a chain.
pub record IsOf (chain : String) (n : ℕ) (t : Transfer) : Type 0 where
  pub chain_id : str_eq t.chain_id chain ≡ true
  pub block_num : t.block_num ≡ n

pub of_chain-IsOf :
    (chain : String) (n : ℕ) (ts : List Transfer) → All (IsOf chain n) ts → of_chain chain ts ≡ ts
unfolding of_chain
of_chain-IsOf chain n [] a = refl
of_chain-IsOf chain n (t ∷ ts) a = ground (arith, a.0.chain_id, of_chain-IsOf chain n ts a.1)

pub below-IsOf_le :
    (chain : String) (m n : ℕ) (ts : List Transfer)
    → n ≤ m
    → All (IsOf chain m) ts
    → below n ts ≡ []
unfolding below
below-IsOf_le chain m n [] h a = refl
below-IsOf_le chain m n (t ∷ ts) h a =
    ground (arith, a.0.block_num, below-IsOf_le chain m n ts h a.1)

pub below-IsOf_lt :
    (chain : String) (m n : ℕ) (ts : List Transfer)
    → m < n
    → All (IsOf chain m) ts
    → below n ts ≡ ts
unfolding below
below-IsOf_lt chain m n [] h a = refl
below-IsOf_lt chain m n (t ∷ ts) h a =
    ground (arith, a.0.block_num, below-IsOf_lt chain m n ts h a.1)

has_key-of_lookup : (k : String) (n : ℕ) (d : Dict ℕ) → lookup k d ≡ some n → has_key k d ≡ true
unfolding lookup has_key
has_key-of_lookup k n [] h = cc
has_key-of_lookup k n ((j, v) ∷ d) h = ground (arith, has_key-of_lookup k n d)

-- A number that is there is replaced.
pub lookup-update_config :
    (k : String) (m n : ℕ) (d : Dict ℕ)
    → lookup k d ≡ some m
    → lookup k (update_config k n d) ≡ some n
unfolding update_config
lookup-update_config k m n d h =
    rw (has_key-of_lookup k m d h) (lookup-insert k k n d ∙ rw (eq_refl k))
