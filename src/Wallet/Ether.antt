-- ===== src/Wallet/Ether.antt =====
-- utils/eth_utils.py: the plug-in of ETH and of the tokens on it. What the node behind it answers to a
-- request is a parameter, and what it is told is a list.
pub mod Laws
pub mod Tests
use Prim.Native.Char.{Char, code}
use text.Mathlib.Text.{find?}
use cross_chain_mid_ware.Base.{
  ℕ, ◌+◌, String, Bool, true, false, ◌&&◌, ◌||◌, Option, none, some, List, [], ◌∷◌, ◌++◌, str_eq,
  ltb, leb, ◌==◌, if◌then◌else◌,
}
use cross_chain_mid_ware.Base.Text.{len, prefix, show, upper, has_text}
use cross_chain_mid_ware.Base.Text.Hex.{int16}
use cross_chain_mid_ware.Base.Result.{Result, ok, err, key_error, ◌>>=◌}
use cross_chain_mid_ware.Eth.Amount.{turn_amount_from_eth}

-- The node's answers; none for a result that is null or missing.
pub record EthNode : Type 0 where
  pub normal_balance : String → Option String
  pub erc20_balance : String → String → Option String
  pub eth_balance : String → Option String
  pub trx : String → Option String
  pub trx_receipt : String → Option String
  pub transaction_count : String → String → Option String
  pub broadcast : String → Option String
  pub ec_recover : String → String → Option String
  pub block_height : Option ℕ
  pub block_number : Option String

unfoldable pub check_hex : Char → Bool
check_hex ch =
    if leb 48 (code ch) && leb (code ch) 57
    then true
    else if leb 65 (code ch) && leb (code ch) 70
    then true
    else leb 97 (code ch) && leb (code ch) 102

-- The loop over the characters, from the index `i` on.
unfoldable pub check_from : ℕ → String → Bool
unfolding check_hex
check_from i String.[] = true
check_from i (String.◌∷◌ item addr) =
    let rest = check_from (i + 1) addr in
    if i == 0
    then (if code item == 48 then rest else false)
    else if i == 1
    then (if code item == 120 then rest else false)
    else if check_hex item
    then rest
    else false

unfoldable pub eth_validate_address : String → Bool
unfolding check_from len
eth_validate_address addr = if len addr == 42 then check_from 0 addr else false

-- What a balance is asked for: an address of ETH, or one of a token, with the token's contract and
-- number of decimals.
pub data Holder : Type 0 where
  normal : String → Holder
  erc20 : String → String → ℕ → Holder

abbrev pub real_precision : Holder → ℕ
real_precision (normal addr) = 18
real_precision (erc20 contract_addr addr precision) = precision

unfoldable pub ask_balance : EthNode → Holder → Option String
ask_balance node (normal addr) = node.normal_balance addr
ask_balance node (erc20 contract_addr addr precision) = node.erc20_balance contract_addr addr

unfoldable pub balance_text : ℕ → Option String → Result String
unfolding int16 turn_amount_from_eth show
balance_text precision none = ok "0"
balance_text precision (some result) =
    int16 result >>= λ v. ok (turn_amount_from_eth (show v) precision)

unfoldable pub eth_get_address_balance : EthNode → Holder → Result String
unfolding ask_balance balance_text
eth_get_address_balance node holder = balance_text (real_precision holder) (ask_balance node holder)

unfoldable pub eth_get_no_precision_balance : EthNode → String → Result ℕ
unfolding int16
eth_get_no_precision_balance node address = elim (node.eth_balance address) [
  | none ↦ ok 0
  | some result ↦ int16 result
]

-- The transaction and its receipt; neither, unless the node knows both.
unfoldable pub get_transaction_data : EthNode → String → Option String × Option String
get_transaction_data node trx_id = elim (node.trx trx_id) [
  | none ↦ (none, none)
  | some resp_data ↦ elim (node.trx_receipt trx_id) [
    | none ↦ (none, none)
    | some receipt_data ↦ (some resp_data, some receipt_data)
  ]
]

unfoldable pub eth_get_trx_count : EthNode → String → String → String
eth_get_trx_count node address index_format = elim (node.transaction_count address index_format) [
  | none ↦ "{}"
  | some n ↦ n
]

-- What the node was told to watch.
pub record Watched : Type 0 where
  pub normal_addresses : List String
  pub erc20_addresses : List String

abbrev pub add_normal : String → Watched → Watched
add_normal addr w = record w { normal_addresses = w.normal_addresses ++ addr ∷ [] }

-- The address in front of "erc" goes to both lists, an address without it to the first.
unfoldable pub add_guard_address : String → Watched → Watched
unfolding prefix
add_guard_address addr w = elim (find? addr "erc") [
  | none ↦ add_normal addr w
  | some pos ↦
      let handle_addr = prefix pos addr in
      let told = add_normal handle_addr w in
      record told { erc20_addresses = told.erc20_addresses ++ handle_addr ∷ [] }
]

unfoldable pub eth_send_raw_transaction : EthNode → String → String
eth_send_raw_transaction node param = elim (node.broadcast param) [ none ↦ "" | some id ↦ id ]

unfoldable pub eth_verify_signed_message : EthNode → String → String → String → Bool
unfolding upper
eth_verify_signed_message node addr message signature = elim (node.ec_recover message signature) [
  | none ↦ false
  | some signer ↦ str_eq (upper signer) (upper addr)
]

unfoldable pub get_latest_block_num : EthNode → Result ℕ
unfolding int16
get_latest_block_num node = elim node.block_number [
  | none ↦ err (key_error "result")
  | some result ↦ int16 result
]

unfoldable pub eth_get_block_height : EthNode → ℕ
eth_get_block_height node = elim node.block_height [ none ↦ 0 | some n ↦ n ]
