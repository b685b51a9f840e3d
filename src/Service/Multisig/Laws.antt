-- ===== src/Service/Multisig/Laws.antt =====
-- What `zchain_multisig_create` (service/sim_api.py) leaves in the collections.
use mathlib.Core.List.{append-nil}
use cross_chain_mid_ware.Base.{
  ℕ, ◌≡◌, refl, ap, ◌∙◌, String, false, Option, some, List, [], ◌∷◌, ◌++◌, str_eq, eq_iff, eq_refl,
  if◌then◌else◌, arith, Bool-cases, inl, inr,
}
use cross_chain_mid_ware.Base.Text.{lower}
use cross_chain_mid_ware.Base.Dict.{insert, lookup-insert}
use cross_chain_mid_ware.Service.Interface.{given, Response, answer, Plugin, utxo_plugin}
use cross_chain_mid_ware.Service.Multisig.{
  MultisigAnswer, MultisigRow, Collections, collection, remove_address, has_address, record_address,
  collection_of, store_multisig, create_with, zchain_multisig_create,
}

-- The rows of an address, and those of the others.
unfoldable pub rows_of : String → List MultisigRow → List MultisigRow
rows_of address [] = []
rows_of address (r ∷ rs) =
    let rest = rows_of address rs in if str_eq r.address address then r ∷ rest else rest

rows_of-append :
    (a : String) (rs ss : List MultisigRow) → rows_of a (rs ++ ss) ≡ rows_of a rs ++ rows_of a ss
unfolding rows_of
rows_of-append a [] ss = refl
rows_of-append a (r ∷ rs) ss = ground (arith, rows_of-append a rs ss)

rows_of-remove_address :
    (a b : String) (rs : List MultisigRow)
    → rows_of b (remove_address a rs) ≡ (if str_eq a b then [] else rows_of b rs)
unfolding rows_of remove_address
rows_of-remove_address a b [] = ground arith
rows_of-remove_address a b (r ∷ rs) =
    ground
      (arith, rows_of-remove_address a b rs, eq_iff r.address a, eq_iff r.address b, eq_iff a b)

rows_of-has_address :
    (a : String) (rs : List MultisigRow) → has_address a rs ≡ false → rows_of a rs ≡ []
unfolding rows_of has_address
rows_of-has_address a [] h = refl
rows_of-has_address a (r ∷ rs) h = ground (arith, rows_of-has_address a rs)

collection-insert :
    (name other : String) (rows : List MultisigRow) (db : Collections)
    → collection other (insert name rows db)
      ≡ (if str_eq name other then rows else collection other db)
unfolding collection
collection-insert name other rows db = ground (arith, lookup-insert name other rows db)

rows_of-kept :
    (a b : String) (rs : List MultisigRow)
    → rows_of b (if has_address a rs then remove_address a rs else rs)
      ≡ (if str_eq a b then [] else rows_of b rs)
rows_of-kept a b rs = elim (Bool-cases (has_address a rs)) [
  | inl e ↦ rw e (rows_of-remove_address a b rs)
  | inr e ↦ rw e (ground (arith, rows_of-has_address a rs e, eq_iff a b))
]

record_address-rows :
    (name b : String) (row : MultisigRow) (db : Collections)
    → rows_of b (collection name (record_address name row db))
      ≡ (if str_eq row.address b then row ∷ [] else rows_of b (collection name db))
unfolding record_address rows_of
record_address-rows name b row db =
    let rows = collection name db in
    let kept = if has_address row.address rows then remove_address row.address rows else rows in
    ap (rows_of b) (collection-insert name name (kept ++ row ∷ []) db ∙ rw (eq_refl name))
    ∙ rows_of-append b kept (row ∷ [])
    ∙ rw (rows_of-kept row.address b rows) (ground (arith, append-nil (rows_of b rows)))

-- The answer and the collections after row `row` has been recorded for chain `chain` under `name`.
pub record IsRecorded (chain name : String) (row : MultisigRow) (db : Collections)
    (o : Response MultisigAnswer × Collections) : Type 0 where
  pub answered : o.0 ≡ answer (chain, row.address, row.redeem_script)
  pub rows :
      (b : String)
      → rows_of b (collection name o.1)
        ≡ (if str_eq row.address b then row ∷ [] else rows_of b (collection name db))
  pub others :
      (other : String) → str_eq name other ≡ false → collection other o.1 ≡ collection other db

record_address-IsRecorded :
    (chain name : String) (row : MultisigRow) (db : Collections)
    → IsRecorded chain name row db
        (answer (chain, row.address, row.redeem_script), record_address name row db)
unfolding record_address
record_address-IsRecorded chain name row db = record {
  answered = refl;
  rows = λ b. record_address-rows name b row db;
  others = λ other ne. collection-insert name other _ db ∙ rw ne refl;
}

-- When the wallet node makes an address for a chain with a plug-in, the chain's collection holds
-- for this address one row afterwards, the new one, however many it held; the rows of all other
-- addresses and all other collections stay as they are; and the answer names the address and its
-- redeem script.
pub multisig_create-IsRecorded :
    (sim_btc_plugin : List String) (create : Plugin → List String → ℕ → Option (String × String))
    (chain : String) (addrs : List String) (amount : ℕ) (p : Plugin) (address script : String)
    (db : Collections)
    → utxo_plugin sim_btc_plugin (lower chain) ≡ some p
    → create p addrs amount ≡ some (address, script)
    → IsRecorded
        (lower chain)
        (collection_of (lower chain) p)
        (record { address = address; redeem_script = script; addr_type = 0 })
        db
        (zchain_multisig_create sim_btc_plugin create (given chain) (given addrs) (given amount) db)
unfolding zchain_multisig_create create_with store_multisig
multisig_create-IsRecorded sim_btc_plugin create chain addrs amount p address script db hp hc =
    let row : MultisigRow = record { address = address; redeem_script = script; addr_type = 0 } in
    rw hp (
      rw (create_with, hc)
        (record_address-IsRecorded (lower chain) (collection_of (lower chain) p) row db))
