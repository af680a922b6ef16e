-- ===== src/Lib.antt =====
-- Bitz-pool, a mining pool for BITZ on the Eclipse chain: verification of the server.
--
-- The server hands nonce ranges to miners over websockets, judges the solutions that come back,
-- sends the best one of each epoch to the chain, and shares what it earns among the miners, who
-- claim it later. Its parts are systems that run in parallel on shared state behind locks, and a
-- MySQL database. The modules follow the parts:
--   State         the types of src/main.rs and the state that the systems share (`Server`, one field
--                 for each lock), the first state of `main`.
--   Message       src/message.rs: the binary messages. Message/Layout reads them back.
--   Hashpower     the weight of a solution, in src/systems/client_message_handler_system.rs.
--   Proofs        `get_cutoff` (src/bitz_utils.rs) and src/systems/proof_tracking_system.rs.
--   Accounts      the accounts that src/bitz_utils.rs reads for an attempt; eore_api lays them out.
--   Tasks         the tasks that systems spawn, as data: one constructor for each stage, a stage being
--                 what happens under one lock.
--   Client        src/systems/client_message_handler_system.rs: `solution_stage` is the task of a
--                 solution, stage by stage; Alone is its specification, Race two of them at once.
--   Ready         src/systems/handle_ready_clients_system.rs: a round that nothing interrupts, nonce
--                 ranges, the spawned task. Stages is the loop lock by lock (`round_stage`).
--   Submission    src/systems/pool_submission_system.rs: the writes to the shared state, the turns of
--                 the loops that start an epoch (Fresh), the attempts to send a solution (Attempts),
--                 the challenge in the database (Challenges), the event in the log of a transaction
--                 (Logs), the message of a mined round (Success).
--   Rewards       the commission and the totals (src/systems/pool_submission_system.rs), the shares,
--                 the rows and the batches (src/systems/pool_mine_success_system.rs).
--   Claims        the requests of src/utils.rs; Worker is src/systems/claim_system.rs.
--   Desk          claims as they run beside each other: the stages of the requests, also those of
--                 `claim_direct` (`request_stage`), of the worker (`worker_stage`), and what the rest of the server may do (`Keeps`),
--                 with the payout of a round as an instance (Payout).
--   Sockets       connections and their messages (src/utils.rs), the ping check (src/main.rs),
--                 src/systems/pong_tracking_system.rs, src/systems/message_text_all_clients_system.rs.
--   Auth          the websocket handlers, the signup and the connection counts of src/utils.rs.
--   Database      src/app_database.rs on the rows of src/models.rs. A `Link` says how far a call gets.
--   Schedule      all of them together: a step relation whose steps may follow in any order, any write
--                 of the submission system included.
--   Epochs        src/systems/pool_submission_system.rs as it runs beside the rest: the loop (`drive`),
--                 its waiting tasks (`waiting_stage`), the rounds to be paid out, the challenges in the
--                 database. Refines places it in Schedule; Payout is the task of a mined round.
--   Start         `main` (src/main.rs) up to the systems: balance, proof, pool, commission, challenge.
--   Replica       src/app_rr_database.rs, its SQL on lists of rows. CaughtUp compares it with Database.
--   Routes        the reading routes of src/utils.rs. Answers compares them with the claims.
--   Rpc, Common, Samples   answers of the RPC; shared helpers; the data of the tests.
--
-- Numbers. Words of 64 bits wrap as in a release build (Cargo.toml has no profile that checks), the
-- saturating operations saturate, balances are BIGINT UNSIGNED: a statement out of range is an error.
-- Maps are association lists in any order.
--
-- Loops. A loop over given data is a recursion on it. A loop that waits for the outside (the RPC, the
-- database) runs over the list of answers that the outside gives, and ends in `none` when the list is
-- at its end: theorems that say that a loop ends name the answers that are enough for it. The chunks
-- of a slice have its length as fuel, which is enough since a chunk takes one element at least.
--
-- Parameters. What third-party code decides is an argument: `Drillx` (validity and difficulty of a
-- solution), `Crypto` (signatures), `Layouts` (accounts), the answers of the
-- RPC, the results of parsing keys.
--
-- Not modelled: a statement of the database that takes effect while its answer is lost (a `Link` has
-- no such case); `get_miner_earnings` and its statement, which is not valid SQL; the schema
-- (src/schema.rs is generated), the arguments and the environment of `main`
-- and the spawning of the systems, the subscription of the proof tracking and the builders of
-- instructions in src/bitz_utils.rs, which only call eore_api, the clock route, logging, and the
-- floats of the messages to the miners.
pub mod Common
pub mod Samples
pub mod State
pub mod Message
pub mod Rpc
pub mod Hashpower
pub mod Proofs
pub mod Accounts
pub mod Tasks
pub mod Client
pub mod Ready
pub mod Database
pub mod Rewards
pub mod Claims
pub mod Submission
pub mod Sockets
pub mod Auth
pub mod Schedule
pub mod Epochs
pub mod Start
pub mod Replica
pub mod Routes
pub mod Desk
