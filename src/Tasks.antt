-- ===== src/Tasks.antt =====
-- The work that the systems hand to `tokio::spawn`. A task holds one value for each stage of its
-- body, a stage being what runs under one lock: between two stages any other task may run.
use bitz_pool.Common.{ℕ, List}
use bitz_pool.State.{Solution, InternalMessageSubmission, Range}

pub data Task : Type 0 where
  -- `ClientMessage::Ready` (src/systems/client_message_handler_system.rs): the address
  mark_ready : ℕ → Task
  -- `ClientMessage::BestSolution`, from the reading of the window on: address, solution, uuid
  check_window : ℕ → Solution → ℕ → Task
  late : ℕ → Task
  find_ranges : ℕ → Solution → ℕ → Task
  -- address, solution, uuid, nonce
  find_miner : ℕ → Solution → ℕ → ℕ → Task
  -- address, solution, uuid, nonce, miner
  check_proof : ℕ → Solution → ℕ → ℕ → ℕ → Task
  refuse : ℕ → Task
  -- uuid, solution, the submission that it is worth
  compare_old : ℕ → Solution → InternalMessageSubmission → Task
  record_new : ℕ → Solution → InternalMessageSubmission → Task
  -- the task for one ready client (src/systems/handle_ready_clients_system.rs): address, message,
  -- uuid, range
  announce : ℕ → List ℕ → ℕ → Range → Task
  fetch_ranges : ℕ → Range → Task
  store_ranges : ℕ → List Range → Task
  done : Task
