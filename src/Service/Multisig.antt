-- ===== src/Service/Multisig.antt =====
-- `Zchain.Multisig.Create` (service/sim_api.py, `zchain_multisig_create`): a multisig address is
-- made by the wallet node and recorded in the collection that the chain's collector reads.
pub mod Laws
use cross_chain_mid_ware.Base.{
  ℕ, String, Bool, true, false, Option, none, some, List, [], ◌∷◌, ◌++◌, str_eq, if◌then◌else◌,
}
use cross_chain_mid_ware.Base.Text.{lower, ◌<>◌}
use cross_chain_mid_ware.Base.Dict.{Dict, lookup, insert}
use cross_chain_mid_ware.Service.Interface.{
  Arg, given, mistyped, Response, answer, attribute_error, mismatched_parameter_type,
  invalid_chainid_type, Plugin, sim_btc, hc, usdt, btm, eth, utxo_plugin,
}

-- A record of a collection of multisig addresses.
pub record MultisigRow : Type 0 where
  pub address : String
  pub redeem_script : String
  pub addr_type : ℕ

-- The collections by their names; one that is not there is empty.
abbrev pub Collections : Type 0
Collections = Dict (List MultisigRow)

unfoldable pub collection : String → Collections → List MultisigRow
collection name db = elim (lookup name db) [ none ↦ [] | some rows ↦ rows ]

-- `remove({"address": address})`
unfoldable pub remove_address : String → List MultisigRow → List MultisigRow
remove_address address [] = []
remove_address address (r ∷ rs) =
    let rest = remove_address address rs in if str_eq r.address address then rest else r ∷ rest

-- `find_one({"address": address})` is not None
unfoldable pub has_address : String → List MultisigRow → Bool
has_address address [] = false
has_address address (r ∷ rs) = if str_eq r.address address then true else has_address address rs

unfoldable pub record_address : String → MultisigRow → Collections → Collections
record_address name row db =
    let rows = collection name db in
    let kept = if has_address row.address rows then remove_address row.address rows else rows in
    insert name (kept ++ row ∷ []) db

-- The name of the collection in each branch.
abbrev pub collection_of : String → Plugin → String
collection_of chain hc = "b_hc_multisig_address"
collection_of chain btm = "b_btm_multisig_address"
collection_of chain (sim_btc name) = "b_" <> chain <> "_multisig_address"
collection_of chain usdt = "b_" <> chain <> "_multisig_address"
collection_of chain eth = ""

-- The chain, the address and the redeem script.
abbrev pub MultisigAnswer : Type 0
MultisigAnswer = String × String × String

-- `create` is the wallet node's answer, an address and its redeem script, or None.
module _ (sim_btc_plugin : List String)
    (create : Plugin → List String → ℕ → Option (String × String)) where
  unfoldable pub store_multisig :
      String
      → Plugin
      → Option (String × String)
      → Collections
      → Response MultisigAnswer × Collections
  store_multisig chain p none db = (answer (chain, "", ""), db)
  store_multisig chain p (some (address, script)) db = (
    answer (chain, address, script),
    record_address (collection_of chain p)
        (record { address = address; redeem_script = script; addr_type = 0 }) db,
  )

  unfoldable pub create_with :
      String → List String → ℕ → Option Plugin → Collections → Response MultisigAnswer × Collections
  create_with chain addrs amount none db = (invalid_chainid_type chain, db)
  create_with chain addrs amount (some p) db = store_multisig chain p (create p addrs amount) db

  -- `lower` is called before the type is looked at, so that a chain that is no text raises.
  unfoldable pub zchain_multisig_create :
      Arg String → Arg (List String) → Arg ℕ → Collections → Response MultisigAnswer × Collections
  zchain_multisig_create mistyped addrs amount db = (attribute_error, db)
  zchain_multisig_create (given chain) mistyped amount db =
      (mismatched_parameter_type "addrs" "ARRAY", db)
  zchain_multisig_create (given chain) (given addrs) mistyped db =
      (mismatched_parameter_type "amount" "INTEGER", db)
  zchain_multisig_create (given chain) (given addrs) (given amount) db =
      create_with (lower chain) addrs amount (utxo_plugin sim_btc_plugin (lower chain)) db
