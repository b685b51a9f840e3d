-- ===== src/Wallet/Ether/Tests.antt =====
-- Runs of the plug-in of ETH (utils/eth_utils.py), and the theorems about it applied to them.
use cross_chain_mid_ware.Base.{◌≡◌, ◌↔◌, refl, true, false, none, some, [], ◌∷◌}
use cross_chain_mid_ware.Base.Result.{ok}
use cross_chain_mid_ware.Base.Text.{prefix, ◌<>◌}
use cross_chain_mid_ware.Base.Text.Hex.{show_hex}
use cross_chain_mid_ware.Wallet.Ether.{
  EthNode, normal, erc20, eth_validate_address, eth_get_address_balance,
  eth_get_no_precision_balance, get_transaction_data, add_guard_address, eth_verify_signed_message,
  get_latest_block_num,
}
use cross_chain_mid_ware.Wallet.Ether.Laws.{IsEthAddress, eth_validate_address_lem}

abbrev node : EthNode
node = record {
  normal_balance = λ addr. some ("0x" <> show_hex 1500000000000000000);
  erc20_balance = λ contract_addr addr. none;
  eth_balance = λ addr. some "0x1f";
  trx = λ id. some id;
  trx_receipt = λ id. none;
  transaction_count = λ addr index. none;
  broadcast = λ param. none;
  ec_recover = λ message signature. some "0xAb";
  block_height = some 7;
  block_number = some "0x10";
}

addresses_run :
    (eth_validate_address "0x66c69ce0515edbd2ed7f299fb05a25065c3608d7" ≡ true)
    × (eth_validate_address "0X66c69ce0515edbd2ed7f299fb05a25065c3608d7" ≡ false)
    × (eth_validate_address "0x66c69ce0515edbd2ed7f299fb05a25065c3608g7" ≡ false)
    × (eth_validate_address "0x66c6" ≡ false)
unfolding eth_validate_address
addresses_run = (refl, refl, refl, refl)

node_run :
    (eth_get_no_precision_balance node "0x1" ≡ ok 31)
    × (get_transaction_data node "0x2" ≡ (none, none))
    × (eth_verify_signed_message node "0xaB" "m" "s" ≡ true)
    × (get_latest_block_num node ≡ ok 16)
unfolding eth_get_no_precision_balance get_transaction_data eth_verify_signed_message
    get_latest_block_num
node_run = (refl, refl, refl, refl)

guard_run :
    add_guard_address "0x66erc" (record { normal_addresses = []; erc20_addresses = [] })
    ≡ record { normal_addresses = "0x66" ∷ []; erc20_addresses = "0x66" ∷ [] }
unfolding add_guard_address prefix
guard_run = refl

balance_run :
    (eth_get_address_balance node (normal "0x1") ≡ ok "1.5")
    × (eth_get_address_balance node (erc20 "0x2" "0x1" 6) ≡ ok "0")
unfolding eth_get_address_balance show_hex
balance_run = (refl, refl)

eth_validate_address_lem_example :
    (eth_validate_address "0x66c69ce0515edbd2ed7f299fb05a25065c3608d7" ≡ true)
    ↔ IsEthAddress "0x66c69ce0515edbd2ed7f299fb05a25065c3608d7"
eth_validate_address_lem_example =
    eth_validate_address_lem "0x66c69ce0515edbd2ed7f299fb05a25065c3608d7"
