-- ===== src/Samples.antt =====
-- Concrete states, rows and messages, at which the tests of the components run.
use Prim.Native.Nat.{compare, Ordering}
use bitz_pool.Common.{ℕ, ◌+◌, true, false, none, some, List, [], ◌∷◌}
use bitz_pool.Common.Map.{HashMap}
use bitz_pool.Common.Int.{pos}
use bitz_pool.State.{
  Solution, Drillx, InternalMessageSubmission, AppClientConnection, v2, Proof, Server,
}
use bitz_pool.Database.Tables.{Miner, Reward, UpdateReward, Pool, Challenge, Tables}
use bitz_pool.Replica
use bitz_pool.Replica.{EarningRow}
use bitz_pool.Database.Link.{linked}
use bitz_pool.Rewards.{MineSuccess}
use bitz_pool.Claims.{Crypto, Around, ui_amount}

abbrev pub solution : Solution
solution = record { d = 7 ∷ []; n = 5 ∷ 0 ∷ 0 ∷ 0 ∷ 0 ∷ 0 ∷ 0 ∷ 0 ∷ [] }

-- A digest gives its first byte as the difficulty, and is valid for a challenge that starts with 1.
abbrev first : List ℕ → ℕ
first [] = 0
first (b ∷ bs) = b

abbrev pub drillx : Drillx
drillx = record {
  is_valid = λ s c. elim (compare (first c) 1) [ Ordering.eq ↦ true | _ ↦ false ];
  difficulty = λ s. first s.d + 10;
}

abbrev pub connection : ℕ → AppClientConnection
connection uuid = record {
  uuid = uuid;
  pubkey = 500 + uuid;
  miner_id = 10 + uuid;
  worker_name = "-";
  start_mining_at = 1000 + uuid;
  client_version = v2;
}

abbrev pub sockets : HashMap AppClientConnection
sockets = (100, connection 1) ∷ (101, connection 2) ∷ []

abbrev pub proof : Proof
proof = record { challenge = 1 ∷ []; last_hash_at = pos 1000; balance = 0 }

abbrev pub next_proof : Proof
next_proof = record { challenge = 2 ∷ []; last_hash_at = pos 1060; balance = 9 }

abbrev pub server : Server
server = record {
  app_state = record { sockets = sockets; paused = false };
  proof = proof;
  last_challenge = [];
  epoch_hashes = record {
    challenge = 1 ∷ [];
    best_hash = record { solution = none; difficulty = 0 };
    submissions = [];
  };
  ready_clients = 100 ∷ 101 ∷ [];
  nonce = 40000000;
  client_nonce_ranges = (1, record { start = 0; end = 39999999 } ∷ []) ∷ [];
  window_closed = false;
  pongs = [];
  outbox = [];
}

abbrev pub submission : ℕ → ℕ → ℕ → InternalMessageSubmission
submission miner_id diff hashpower = record {
  miner_id = miner_id;
  supplied_diff = diff;
  supplied_nonce = 5;
  hashpower = hashpower;
  real_hashpower = hashpower;
}

abbrev pub submissions : HashMap InternalMessageSubmission
submissions = (1, submission 11 13 160) ∷ (2, submission 12 12 80) ∷ []

abbrev pub success_message : MineSuccess
success_message = record {
  difficulty = 13;
  rewards = 1000;
  commissions = 50;
  challenge_id = 3;
  challenge = 1 ∷ [];
  best_nonce = 5;
  total_hashpower = 240;
  total_real_hashpower = 240;
  submissions = submissions;
}

abbrev pub pool : Pool
pool = record {
  id = 1;
  proof_pubkey = 8;
  authority_pubkey = 9;
  total_rewards = 5000;
  claimed_rewards = 100;
}

abbrev pub miner : Miner
miner = record { id = 11; pubkey = 501; enabled = true }

abbrev pub reward : Reward
reward = record { miner_id = 11; balance = 7000000000 }

abbrev pub tables : Tables
tables = record {
  next_id = 20;
  miners = miner ∷ record { id = 12; pubkey = 502; enabled = true } ∷ [];
  rewards = reward ∷ record { miner_id = 12; balance = 5 } ∷ [];
  pools = pool ∷ [];
  challenges = [];
  earnings = [];
  submissions = [];
  txns = [];
  claims = [];
}

abbrev pub batch : List UpdateReward
batch = record { miner_id = 11; balance = 633 } ∷ record { miner_id = 12; balance = 316 } ∷ []

abbrev pub crypto : Crypto
crypto = record { to_bytes = λ k. k ∷ []; verify = λ sig key msg. true }

abbrev pub around : Around
around = record {
  now = 2000;
  rewards_link = linked;
  claims_link = linked;
  token = ui_amount;
  tables = tables;
}

abbrev earning : ℕ → ℕ → ℕ → ℕ → EarningRow
earning miner_id challenge_id difficulty at = record {
  row = record {
    miner_id = miner_id;
    pool_id = 1;
    challenge_id = challenge_id;
    amount = 300;
    difficulty = difficulty;
    worker_name = "-";
  };
  created_at = at;
}

abbrev round : ℕ → Challenge
round id = record {
  id = id;
  pool_id = 1;
  submission_id = none;
  challenge = id ∷ [];
  rewards_earned = some 600;
}

-- A replica of `tables`, which has three rounds.
abbrev pub replica : Replica.Tables
replica = record {
  miners = tables.miners;
  rewards = tables.rewards;
  challenges = round 5 ∷ round 4 ∷ round 3 ∷ [];
  claims = tables.claims;
  earnings = earning 12 4 15 99000 ∷ earning 11 4 12 99000 ∷ earning 11 3 13 80000 ∷ [];
}
