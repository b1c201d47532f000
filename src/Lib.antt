-- ===== src/Lib.antt =====
-- The shreds program, as a library of definitions and theorems.
--
-- The program listens for the packets of Solana's block propagation, shreds, gathers them into
-- forward error correction sets, decodes the entries of a set that is complete, and hands the
-- entries to a processor that looks for transactions of interest. All paths are from the
-- repository's root.
--
-- The parts and their files:
--   * Variant: src/structs.rs, the byte that says what kind a shred is (`ShredVariant`, `to_u8`,
--     `try_from`, `shred_type`).
--   * Shred: src/shred.rs. Header has the readers of header fields (`get_shred_variant`,
--     `is_shred_data`, `get_coding_shred_header` and the rest), Payload has `shred_data` and
--     `deshred`, Entries has `deserialize_entries`, Sets has `load_shreds`, `preprocess_shreds` and
--     `debug_shred_sizes`, Repair has `validate_and_try_repair`, and Debug what is printed of a shred.
--   * Processor: src/shred_processor.rs. State has the structs `FecSet` and `ShredProcessor`, `new`,
--     `is_fec_set_complete` and `metrics`; Process has `process_fec_set`; Collect has `insert` and
--     `collect`; Deliver has the packets of one set from the first to the last. `collect` calls `insert`, which calls `process_fec_set` on a set that is complete,
--     which calls the functions of Shred and sends the entries.
--   * Raydium: src/raydium.rs. Instruction has `parse_amm_instruction`; Swap has the state of a pool,
--     `calculate_price` and `swap_exact_amount`; Json has `parse_raydium_json` and `json_to_amm`, and
--     Download `download_raydium_json` and `RAYDIUM_JSON`.
--   * Arb: src/arb.rs and src/entry_processor.rs. Pools has `PoolsState` and what a transaction does
--     to it, `reduce_raydium_amm_tx` down to `update_pool_state_swap`; its child Initialize has
--     `initialize_raydium_amm_pools` of src/raydium.rs; Entries has
--     `ArbEntryProcessor::process_entries`, which receives what Processor sends.
--   * Pump: `PumpEntryProcessor::process_entries` and `deduct_fee` of src/entry_processor.rs, and the
--     structs of src/pump.rs.
--   * Graduates: src/graduates_processor.rs, `filter_transaction` and `process_entries`.
--   * Service: src/service.rs and the modes of src/listener.rs. `Step` is one round of one of the tasks
--     of `run`, which share the shred processor and the channel of batches; `Reach` is any interleaving
--     of them. Trace and Run compare it with a program of two loops, Receive is the
--     loop over the two channels, Stop is about tasks that end, and
--     Modes and its children Events and Trades about what each mode starts.
--   * Listener: the save mode of src/listener.rs, `listen`, `run_listener_with_save` and `dump_to_file`,
--     and its loop over signatures.
--   * Benchmark: src/benchmark.rs, `listen_pubsub` and `compare_results`, and `benchmark_cmd` of
--     src/main.rs, which compares what the subscription and the listener gave.
--   * Main: src/main.rs and src/app.rs, the command line, and what each command checks and starts; the
--     service that it starts is the first state of Service.
--   * Logger: src/logger.rs. Disk: the files that the program makes. Channel: what the processors of
--     entries receive. Constants: src/constants.rs, src/util.rs and the tables of keys.
--   * Transaction: what the program reads of solana_sdk's transactions.
--   * Ledger: the interface to solana_ledger and solana_sdk, a record of operations over abstract
--     types, and the documented facts that some theorems take as hypotheses.
--   * Base: shared types and lemmas. Sample: concrete instances of the interfaces, for the examples.
--
-- How the code is represented. A method that changes its object takes the state and returns the next
-- one. `Outcome` is what a Rust call does: `ok` and `err` for the two values of a `Result`, and
-- `panicked` for `expect`, `unwrap`, a slice out of range or a division by zero. Bytes and machine
-- integers are natural numbers, and arithmetic wraps as in a release build (`% 2 ^ 64` and the like).
-- A `HashMap` is an association list with distinct keys, a `HashSet` a list; where the iteration
-- order of a map matters it is a parameter (`Host.values`). A channel is the list of what was sent,
-- and its receiver is open; the channel of batches is in Service a queue of bounded length, whose
-- receiver goes with the task that owns it. A task is the outcome of its calls so far; what `Step` does
-- at once is a call under the lock of the shred processor, or one of the entry processor, which is taken
-- to end. Public keys, signatures and ids are numbers or abstract.
--
-- No definition runs on fuel: every loop of the modelled code goes over a list or counts to a number.
--
-- Parameters, since their code is not part of the repository: solana_ledger's parser of shreds, its
-- recovery and its ids (`Ledger`); bincode's reader of an entry (`Host.read_entry`); raydium_amm's
-- calculator and rounding division (`AmmMath`); borsh (`Borsh`); serde_json (`Json`);
-- raydium_library's calls of a node (`Chain`); the bodies of the instructions that nothing here reads.
--
-- Also parameters: what the file system refuses (`Os`), what servers and sockets answer (`Outside`,
-- `Response`, `Feed`), floating point numbers (`Float`), and the variables of the environment.
--
-- Not modelled: the text of log lines and of JSON; the progress bar; a post that is never answered, for which
-- the client sets no time limit; a missing `RPC_URL`, which panics the arb task as a missing
-- file does; the parsing of arguments, which is clap's; deployment;
-- and time, since a step relation says in which order things happen and not when.
pub mod Base
pub mod Ledger
pub mod Variant
pub mod Shred
pub mod Processor
pub mod Transaction
pub mod Raydium
pub mod Arb
pub mod Channel
pub mod Disk
pub mod Logger
pub mod Graduates
pub mod Pump
pub mod Service
pub mod Listener
pub mod Benchmark
pub mod Constants
pub mod Main
pub mod Sample
