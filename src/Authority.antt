-- ===== src/Authority.antt =====
-- packages/sdk/src/authority/client.ts: the client of the upgrade-authority program. Anchor's
-- instruction builders, address derivation and account reads are parameters.
pub mod Address
use trana.Prelude.{ℕ, List, [], ◌∷◌, Option, none, some, codes}
use trana.Prelude.Result.{Result, ok, err, ◌>>=◌, or_throw}
use trana.Types.{KeyText, Instruction, Cluster, devnet, authority_program_id}
use mathlib.Core.Option.{get_or}

-- The calls of Anchor's builders: the instruction and its accounts.
pub data Call : Type 0 where
  register : (owner target : List ℕ) → Call
  execute_upgrade : (owner program program_data buffer spill : List ℕ) → Call
  reclaim_authority :
      (new_authority : List ℕ) → (owner target program_data new_authority_info : List ℕ) → Call

-- `idl_address` is the address in the IDL file. `build` is Anchor's builder for a program address.
pub record Anchor : Type 1 where
  pub AuthorityRecord : Type 0
  pub idl_address : List ℕ
  pub build : (program : List ℕ) → Call → Instruction
  pub find_program_address : (seeds : List (List ℕ)) → (program : List ℕ) → List ℕ
  pub fetch_record : (pda : List ℕ) → Option AuthorityRecord

pub data AuthorityError : Type 0 where
  not_deployed bad_key : AuthorityError

unfoldable pub resolved_program_id : KeyText → Cluster → Result AuthorityError (List ℕ)
resolved_program_id keys cluster = do
  text ← or_throw (authority_program_id cluster) not_deployed
  or_throw (keys.of_base58 text) bad_key

-- `program` is the address that the instructions of the Anchor program carry.
pub record Client : Type 0 where
  pub program_id : List ℕ
  pub cluster : Cluster
  pub program : List ℕ

module _ (anchor : Anchor) where
  unfoldable pub new_client :
      KeyText
      → (program_id : Option (List ℕ)) → (cluster : Option Cluster) → Result AuthorityError Client
  new_client keys (some id) cluster =
      ok (record { program_id = id; cluster = get_or cluster devnet; program = anchor.idl_address })
  new_client keys none cluster = do
    id ← resolved_program_id keys (get_or cluster devnet)
    ok (record { program_id = id; cluster = get_or cluster devnet; program = anchor.idl_address })

  unfoldable pub record_pda : Client → (owner target : List ℕ) → List ℕ
  record_pda client owner target =
      anchor.find_program_address (codes "trana-authority" ∷ owner ∷ target ∷ []) client.program_id

  unfoldable pub fetch_record : Client → (owner target : List ℕ) → Option anchor.AuthorityRecord
  fetch_record client owner target = anchor.fetch_record (record_pda client owner target)

  unfoldable pub register_ix : Client → (owner target : List ℕ) → Instruction
  register_ix client owner target = anchor.build client.program (register owner target)

  unfoldable pub execute_upgrade_ix :
      Client → (owner program program_data buffer spill : List ℕ) → Instruction
  execute_upgrade_ix client owner program program_data buffer spill =
      anchor.build client.program (execute_upgrade owner program program_data buffer spill)

  unfoldable pub reclaim_authority_ix :
      Client → (owner target program_data new_authority : List ℕ) → Instruction
  reclaim_authority_ix client owner target program_data new_authority =
      anchor.build client.program
        (reclaim_authority new_authority owner target program_data new_authority)
