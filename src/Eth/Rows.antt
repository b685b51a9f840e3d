-- ===== src/Eth/Rows.antt =====
-- The rows of the collector's database (eth_data_collector/collector_app.py), and the two writes to
-- a collection: `insert`, and `update` with "$set", which changes the first row that fits. A row
-- may lack some of the fields; the ones that hold times or the raw input of a block are left out.
pub mod Laws
use cross_chain_mid_ware.Base.{
  ℕ, String, Bool, true, false, ◌&&◌, ◌||◌, not, Option, none, some, List, [], ◌∷◌, ◌++◌, str_eq,
  leb, ◌==◌, if◌then◌else◌,
}

-- The field "index": a number in the rows of ETH, a text in those of the tokens.
pub data Index : Type 0 where
  no_index : Index
  number_index : ℕ → Index
  text_index : String → Index

pub record Row : Type 0 where
  pub txid : String
  pub from_account : Option String
  pub to_account : Option String
  pub amount : String
  pub asset_symbol : String
  pub block_num : ℕ
  pub chain_id : String
  pub input : String
  pub fee : String
  pub index : Index
  pub contract_address : Option String
  pub call_contract : Option String
  pub prefixhash : Option String

-- Equality as the database compares: a number is no text.
abbrev pub index_eq : Index → Index → Bool
index_eq no_index no_index = true
index_eq (number_index m) (number_index n) = m == n
index_eq (text_index s) (text_index t) = str_eq s t
index_eq _ _ = false

abbrev pub set_index : Index → Index → Index
set_index no_index old = old
set_index (number_index n) old = number_index n
set_index (text_index t) old = text_index t

abbrev pub set_field : Option String → Option String → Option String
set_field none old = old
set_field (some s) old = some s

-- `{"$set": new}`: the fields that the new row lacks keep their values.
unfoldable pub set_row : Row → Row → Row
set_row new old = record new {
  index = set_index new.index old.index;
  contract_address = set_field new.contract_address old.contract_address;
  call_contract = set_field new.call_contract old.call_contract;
  prefixhash = set_field new.prefixhash old.prefixhash;
}

-- `find_one`, whether there is a row that fits.
unfoldable pub found : (Row → Bool) → List Row → Bool
found fits [] = false
found fits (r ∷ rs) = fits r || found fits rs

unfoldable pub update : (Row → Bool) → Row → List Row → List Row
update fits new [] = []
update fits new (r ∷ rs) =
    let rest = update fits new rs in if fits r then set_row new r ∷ rs else r ∷ rest

-- A row is looked up by one query, and updated by another.
unfoldable pub store : (Row → Bool) → (Row → Bool) → Row → List Row → List Row
unfolding found update
store seen fits new rows = if found seen rows then update fits new rows else rows ++ new ∷ []

-- The queries that the collector makes.
abbrev pub has_txid : String → Row → Bool
has_txid txid r = str_eq r.txid txid

abbrev pub has_chain : String → String → Row → Bool
has_chain txid chain r = str_eq r.txid txid && str_eq r.chain_id chain

abbrev pub has_index : String → Index → String → Row → Bool
has_index txid index symbol r =
    str_eq r.txid txid && index_eq r.index index && str_eq r.asset_symbol symbol

-- A row of `b_eths_address`.
pub record AddressRow : Type 0 where
  pub address : String
  pub is_contract_address : Bool
  pub chain_id : String

-- A row that only the clean-up touches.
pub record RawRow : Type 0 where
  pub chain_id : String
  pub block_num : ℕ

pub record Db : Type 0 where
  pub syncblocknum : Option ℕ
  pub b_eths_address : List AddressRow
  pub b_deposit_transaction : List Row
  pub b_withdraw_transaction : List Row
  pub b_guardcall_transaction : List Row
  pub b_block : List RawRow
  pub b_raw_transaction : List RawRow
  pub b_raw_transaction_input : List RawRow
  pub b_raw_transaction_output : List RawRow

-- The kind of address that a query asks for.
pub data Kind : Type 0 where
  any_kind contract personal : Kind

abbrev pub is_kind : Kind → AddressRow → Bool
is_kind any_kind r = true
is_kind contract r = r.is_contract_address
is_kind personal r = not r.is_contract_address

-- `b_eths_address.find_one` with "address" and, of a kind, "isContractAddress"; no row is without an
-- address.
unfoldable pub find_address : Kind → Option String → List AddressRow → Option AddressRow
find_address k none rows = none
find_address k (some a) [] = none
find_address k (some a) (r ∷ rs) =
    if str_eq r.address a && is_kind k r then some r else find_address k (some a) rs

-- A `for` loop over states, which an exception ends: the state that it leaves, and whether it came
-- to its end.
unfoldable pub each : {A S : Type 0} → (A → S → S × Bool) → List A → S → S × Bool
each body [] s = (s, true)
each body (x ∷ xs) s =
    let next = body x s in let rest = each body xs next.0 in if next.1 then rest else next
