-- ===== src/State.antt =====
-- The types of src/main.rs: the state that the systems share, and the messages between them.
-- Addresses, uuids and public keys are only compared, so they are numbers; a byte array is the
-- list of its bytes. Each `Arc<RwLock<..>>` or `Arc<Mutex<..>>` that `main` hands to the systems
-- is a field of `Server`.
use bitz_pool.Common.{ℕ, String, Bool, Option, none, List, [], ◌∷◌, false}
use bitz_pool.Common.Map.{HashMap}
use bitz_pool.Common.Int.{ℤ}

abbrev pub min_diff : ℕ
min_diff = 12

-- difficulty 12
abbrev pub min_hashpower : ℕ
min_hashpower = 80

-- difficulty 24
abbrev pub max_calculated_hashpower : ℕ
max_calculated_hashpower = 327680

-- `drillx::Solution`: the digest `d` and the nonce `n`.
pub record Solution : Type 0 where
  pub d : List ℕ
  pub n : List ℕ

-- What the server uses of `drillx`: validity for a challenge, and the difficulty of the hash.
pub record Drillx : Type 0 where
  pub is_valid : Solution → List ℕ → Bool
  pub difficulty : Solution → ℕ

pub record InternalMessageSubmission : Type 0 where
  pub miner_id : ℕ
  pub supplied_diff : ℕ
  pub supplied_nonce : ℕ
  pub hashpower : ℕ
  pub real_hashpower : ℕ

pub record BestHash : Type 0 where
  pub solution : Option Solution
  pub difficulty : ℕ

pub record EpochHashes : Type 0 where
  pub challenge : List ℕ
  pub best_hash : BestHash
  pub submissions : HashMap InternalMessageSubmission

pub data ClientVersion : Type 0 where
  v2 : ClientVersion

-- The socket's sender is its address in the model: what is sent goes to `Server.outbox`.
pub record AppClientConnection : Type 0 where
  pub uuid : ℕ
  pub pubkey : ℕ
  pub miner_id : ℕ
  pub worker_name : String
  pub start_mining_at : ℕ
  pub client_version : ClientVersion

pub record AppState : Type 0 where
  pub sockets : HashMap AppClientConnection
  pub paused : Bool

-- The fields of `eore_api::state::Proof` that the server reads.
pub record Proof : Type 0 where
  pub challenge : List ℕ
  pub last_hash_at : ℤ
  pub balance : ℕ

pub record ClaimsQueueItem : Type 0 where
  pub receiver_pubkey : ℕ
  pub amount : ℕ

-- `start..end`: the end is outside
pub record Range : Type 0 where
  pub start : ℕ
  pub end : ℕ

pub data ClientMessage : Type 0 where
  ready : ℕ → ClientMessage
  mining : ℕ → ClientMessage
  pong : ℕ → ClientMessage
  best_solution : ℕ → Solution → ℕ → ClientMessage

-- `axum::extract::ws::Message`; a close message has the code of its frame, if it has a frame.
pub data WsMessage : Type 0 where
  text : String → WsMessage
  binary : List ℕ → WsMessage
  close_message : Option ℕ → WsMessage
  pong_message : List ℕ → WsMessage
  ping_message : List ℕ → WsMessage

pub record Sent : Type 0 where
  pub to : ℕ
  pub message : WsMessage

pub record Server : Type 0 where
  pub app_state : AppState
  pub proof : Proof
  pub last_challenge : List ℕ
  pub epoch_hashes : EpochHashes
  pub ready_clients : List ℕ
  pub nonce : ℕ
  pub client_nonce_ranges : HashMap (List Range)
  pub window_closed : Bool
  pub pongs : HashMap ℕ
  pub outbox : List Sent

-- `[0u8; 32]`
abbrev pub zero_challenge : List ℕ
zero_challenge =
    0 ∷ 0 ∷ 0 ∷ 0 ∷ 0 ∷ 0 ∷ 0 ∷ 0 ∷ 0 ∷ 0 ∷ 0 ∷ 0 ∷ 0 ∷ 0 ∷ 0 ∷ 0 ∷ 0 ∷ 0 ∷ 0 ∷ 0 ∷ 0 ∷ 0 ∷ 0 ∷ 0
    ∷ 0 ∷ 0 ∷ 0 ∷ 0 ∷ 0 ∷ 0 ∷ 0 ∷ 0 ∷ []

-- The state in which `main` starts the systems, on the proof that it has loaded.
unfoldable pub init : Proof → Server
init p = record {
  app_state = record { sockets = []; paused = false };
  proof = p;
  last_challenge = zero_challenge;
  epoch_hashes = record {
    challenge = p.challenge;
    best_hash = record { solution = none; difficulty = 0 };
    submissions = [];
  };
  ready_clients = [];
  nonce = 0;
  client_nonce_ranges = [];
  window_closed = false;
  pongs = [];
  outbox = [];
}
