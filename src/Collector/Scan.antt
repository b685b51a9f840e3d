-- ===== src/Collector/Scan.antt =====
-- The two passes of `collect_pretty_transaction` over the inputs and outputs of a transaction
-- (btc_data_collector/collect_btc_block.py): the sums by address, and the multisig addresses of
-- the exchange met on either side. The pass over BTM transactions keeps the same state.
pub mod Spec
use cross_chain_mid_ware.Base.{
  ℕ, ◌+◌, String, Bool, true, false, ◌&&◌, not, List, [], ◌∷◌, ◌++◌, str_eq, if◌then◌else◌,
}
use cross_chain_mid_ware.Base.Dict.{Dict, has_key, add_to}

-- An entry of `trx_data["vin"]` or `trx_data["vout"]`: the address, the value, the output number
-- and the transaction or script that comes with it.
pub record Entry : Type 0 where
  pub address : String
  pub value : ℕ
  pub index : ℕ
  pub ref : String

-- The other local variables of the two loops; "" stands for no multisig address.
pub record Scan : Type 0 where
  pub in_set : Dict ℕ
  pub out_set : Dict ℕ
  pub multisig_in : String
  pub multisig_out : String
  pub is_valid : Bool

abbrev pub start : Scan
start = record { in_set = []; out_set = []; multisig_in = ""; multisig_out = ""; is_valid = true }

-- `a in addresses`
unfoldable pub elem : String → List String → Bool
elem a [] = false
elem a (b ∷ bs) = if str_eq b a then true else elem a bs

module _ (multisig : List String) where
  -- The first multisig address is kept; another one makes the transaction invalid.
  abbrev pub see_in : String → Scan → Scan
  see_in a s =
      if elem a multisig
      then (if str_eq s.multisig_in ""
          then record s { multisig_in = a }
          else if str_eq s.multisig_in a
          then s
          else record s { is_valid = false })
      else s

  -- An input that counts.
  unfoldable pub add_in : Entry → Scan → Scan
  add_in e s = see_in e.address (record s { in_set = add_to e.address e.value s.in_set })

  -- Any second output to a multisig address makes the transaction invalid.
  abbrev pub see_out : String → Scan → Scan
  see_out a s =
      if elem a multisig
      then (if str_eq s.multisig_out ""
          then record s { multisig_out = a }
          else record s { is_valid = false })
      else s

  -- What an output that is no change adds.
  unfoldable pub add_out : Entry → Scan → Scan
  add_out e s =
      if has_key e.address s.in_set
      then s
      else see_out e.address (record s { out_set = add_to e.address e.value s.out_set })

  unfoldable pub add_ins : List Entry → Scan → Scan
  add_ins [] s = s
  add_ins (e ∷ es) s = add_ins es (add_in e s)

  unfoldable pub add_outs : List Entry → Scan → Scan
  add_outs [] s = s
  add_outs (e ∷ es) s = add_outs es (add_out e s)
