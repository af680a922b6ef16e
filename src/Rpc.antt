-- ===== src/Rpc.antt =====
-- The answers of the Solana RPC to `get_signature_statuses`, as the loops that poll it read them.
use bitz_pool.Common.{ℕ, Bool, Option}

pub record Status : Type 0 where
  pub finalized : Bool
  pub failed : Bool

-- One turn of a loop that waits: the seconds since the blockhash, and the status, if there is one.
pub record Poll : Type 0 where
  pub elapsed : ℕ
  pub status : Option Status
