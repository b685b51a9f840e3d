-- ===== src/Lib.antt =====
-- CrossChainMidWare is the service between a chain of the exchange and the coins it trades:
-- collectors read the blocks of each coin and record the deposits and withdrawals of the
-- exchange's multisig addresses in a database, and a JSON-RPC service builds transactions for the
-- wallets of the coins.
--
-- The parts that are modelled. Wallet: utils/sim_btc_utils.py, the plug-in of BTC, LTC, UB, BCH
-- and DOGE, which chooses unspent outputs (Wallet/Select.antt) and builds a transaction with its
-- fee and its change (Wallet/SimBtc.antt, on the outputs of Wallet/Outputs.antt);
-- utils/hc_utils.py, the plug-in of HC, is Wallet/Hc.antt; utils/btm_utils.py, the plug-in of BTM,
-- is Wallet/Btm.antt; utils/usdt_utils.py, the plug-in of USDT, is Wallet/Omni.antt;
-- utils/eth_utils.py, the plug-in of ETH and its tokens, is Wallet/Ether.antt; what the wallet
-- node and the collector service answer is the record of Wallet/Interface.antt. Collector:
-- btc_data_collector/collect_btc_block.py, which scans a transaction's inputs and outputs
-- (Collector/Scan.antt), decides what it is and records it (Collector/Record.antt), for BTC and
-- its kin (Collector/Trx.antt) and for BTM (Collector/BtmTrx.antt), fetches blocks
-- (Collector/Fetch.antt), cleans up and flushes (Collector/Store.antt) and runs its threads
-- (Collector/Sync.antt, a step relation whose steps are the rounds of the fetch thread, the main
-- loop's turns, the single writes of the flush thread, and a restart of the process at any
-- moment). Service: service/sim_api.py, the handlers that broadcast a transaction
-- (Service/Broadcast.antt), verify a signature (Service/Verify.antt), make a multisig address
-- (Service/Multisig.antt), create a transaction (Service/Create.antt) and tell clients what the
-- collectors recorded (Service/History.antt, Service/Records.antt), query transactions
-- (Service/Query.antt, and many at once Service/Batch.antt), import addresses
-- (Service/Import.antt), and those that pass the answer of one plug-in on (Service/Forward.antt),
-- on the arguments, answers and plug-ins of Service/Interface.antt. Eth:
-- eth_data_collector/collector_app.py, which turns amounts into texts (Eth/Amount.antt), writes
-- rows (Eth/Rows.antt), records transactions of ETH (Eth/Store.antt) and of tokens (Eth/Erc.antt)
-- from the answers of Eth/Node.antt, and runs its rounds (Eth/Sync.antt). Usdt:
-- omni_data_collector/omni_data_collector/collect_usdt_block.py, which records transactions of the
-- Omni layer (Usdt/Classify.antt) and fetches blocks (Usdt/Fetch.antt). Base holds what they
-- share: integers, dicts, texts, results.
--
-- State and operations. A function of the source is a function of the same name; a loop is a
-- recursion on the list it runs over; local variables that a loop changes are a record (Scan,
-- Selection); a Python dict is an association list, and where the source depends on the order of a
-- dict that order is a parameter of which only that it lists each entry once is known
-- (Base/DictOrder.antt). Amounts are whole numbers of the smallest unit, to which the source
-- rounds its floats at each step; where it takes a float as it is, for the text of an amount and
-- for floatToInt, the double nearest to the amount is computed with (Base/Double.antt), in which a
-- fraction has 1074 binary places at most, as a double has. An exception is a value of
-- Base/Result.antt.
--
-- Parameters. The node's answers, the unspent outputs of the collector service, pybitcointools'
-- address of a script, and the order of dicts are arguments of the definitions. Recursion is
-- structural, but for the digits of a number, which are fewer than the number plus one, and for
-- the rounds of the ETH collector, where one more than the number of blocks to go is enough, since
-- every round takes one at least.
--
-- Not modelled: HTTP transport and logging, times and waiting, the reading of the multisig
-- addresses for each block (they are those of the start), the caches of the USDT collector, which
-- repeat those of the BTC collector, the functions of the ETH collector that nothing calls, the
-- transfers that the plug-in of ETH makes itself, the requests that a plug-in only forwards, the
-- older plug-ins that the service no longer calls, the handlers of the service for contracts and
-- for multisig addresses given by their script, and the Go services.
pub mod Base
pub mod Wallet
pub mod Collector
pub mod Service
pub mod Eth
pub mod Usdt
