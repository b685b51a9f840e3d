-- ===== src/Usdt/Tests.antt =====
-- Runs of the collector of USDT (omni_data_collector/omni_data_collector/collect_usdt_block.py), and
-- the theorems about it applied to them.
use cross_chain_mid_ware.Base.{
  ◌≡◌, refl, String, Bool, true, none, some, [], ◌∷◌, ◌++◌, map, arith, ◌==◌, str_eq, if◌then◌else◌,
}
use cross_chain_mid_ware.Base.Double.{nearest, round_even, grow, shrink}
use cross_chain_mid_ware.Base.Result.{ok}
use cross_chain_mid_ware.Collector.Store.{BlockInfo}
use cross_chain_mid_ware.Usdt.Classify.{
  OmniTrx, UsdtRow, UsdtCaches, omni_value, usdt_row, collect_usdt,
}
use cross_chain_mid_ware.Usdt.Classify.Laws.{collect_usdt-rows}
use cross_chain_mid_ware.Usdt.Fetch.{
  ListTransactions, Fetcher, round, take, fetch_blocks, run_events, usdt_transactions, usdt_round,
}
use cross_chain_mid_ware.Usdt.Fetch.Laws.{Without, fetch_blocks-loses}

abbrev is_multisig : String → Bool
is_multisig a = str_eq a "m"

abbrev sent : OmniTrx
sent = record {
  txid = "t";
  type_int = some 4;
  amount = none;
  propertyid = none;
  ecosystem = some "main";
  subsends =
      some (
        record { propertyid = 1; amount = 5 }
        ∷ record { propertyid = 31; amount = 250000000 }
        ∷ []);
  sendingaddress = "u";
  referenceaddress = "m";
  valid = true;
  fee = 1000;
}

abbrev no_rows : UsdtCaches
no_rows = record { deposits = []; withdraws = [] }

sent_value : omni_value 31 sent ≡ ok (some 250000000)
unfolding omni_value
sent_value = refl

abbrev sent_row : UsdtRow
sent_row = record {
  txid = "t";
  from_account = "u";
  to_account = "m";
  amount = "2.50000000";
  fee = "0.00001000";
  asset_symbol = "USDT";
  block_num = 9;
  chain_id = "usdt";
}

sent_run :
    collect_usdt "USDT" is_multisig 31 sent 9 no_rows
    ≡ ok (record no_rows { deposits = sent_row ∷ [] })
unfolding collect_usdt nearest round_even grow shrink
sent_run = refl

block_run :
    usdt_transactions (λ id. some sent) is_multisig 31 ("t" ∷ "t" ∷ []) 9 no_rows
    ≡ ok (record no_rows { deposits = sent_row ∷ sent_row ∷ [] })
unfolding usdt_transactions nearest round_even grow shrink
block_run = refl

collect_usdt-rows_example :
    let row = usdt_row "USDT" sent 9 "u" "m" 250000000 in
    collect_usdt "USDT" is_multisig 31 sent 9 no_rows
    ≡ ok (record { deposits = [] ++ row ∷ []; withdraws = [] ++ [] })
collect_usdt-rows_example =
    collect_usdt-rows is_multisig "USDT" refl 31 9 250000000 sent no_rows sent_value

-- Block 5 fails in one round, and can be had in the next.
abbrev without_five : ListTransactions
without_five n = if n == 5 then none else some []

abbrev all_blocks : ListTransactions
all_blocks n = some []

abbrev fetcher : Fetcher
fetcher = record { last_sync_block_num = 5; sync_status = true; queue = [] }

lost_run :
    map
      (λ (b : BlockInfo String). b.block_num)
      (run_events 1
        (round (some 9) all_blocks ∷ round (some 9) all_blocks ∷ take ∷ [])
        (usdt_round 1 without_five (some 9) fetcher)).queue
    ≡ 7 ∷ []
unfolding run_events usdt_round
lost_run = refl

fetch_blocks-loses_example :
    Without 5
      (run_events 1
        (round (some 9) all_blocks ∷ take ∷ [])
        (fetch_blocks without_five 1 fetcher)).queue
fetch_blocks-loses_example =
    fetch_blocks-loses 1 1 5 without_five (round (some 9) all_blocks ∷ take ∷ []) fetcher
      (omega arith) (omega arith) refl tt
