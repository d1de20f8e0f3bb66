-- ===== src/Types.antt =====
-- packages/sdk/src/core/types.ts: clusters, program ids, policies; and what the SDK takes from
-- @solana/web3.js: public keys and instructions. Text is a list of code points.
use trana.Prelude.{ℕ, ◌≡◌, List, Option, none, some, Bool, length, codes}

-- A public key is its 32 bytes. Base58 is web3.js: `toBase58()` and `new PublicKey(text)`, which
-- throws (`none`) on a text that is not the base58 form of 32 bytes.
pub record KeyText : Type 0 where
  pub to_base58 : List ℕ → List ℕ
  pub of_base58 : List ℕ → Option (List ℕ)
  pub of-to : (key : List ℕ) → length key ≡ 32 → of_base58 (to_base58 key) ≡ some key
  pub length-of : (text key : List ℕ) → of_base58 text ≡ some key → length key ≡ 32

pub record AccountMeta : Type 0 where
  pub pubkey : List ℕ
  pub is_signer : Bool
  pub is_writable : Bool

pub record Instruction : Type 0 where
  pub program_id : List ℕ
  pub keys : List AccountMeta
  pub payload : List ℕ

pub data Cluster : Type 0 where
  devnet localnet mainnet_beta custom : Cluster

pub data Policy : Type 0 where
  require : Policy
  not_before : (slot : ℕ) → Policy
  not_after : (slot : ℕ) → Policy
  limit : (param_offset : ℕ) → (limit : ℕ) → Policy

unfoldable pub policy_id : Policy → List ℕ
policy_id require = codes "trana.require"
policy_id (not_before slot) = codes "trana.not_before"
policy_id (not_after slot) = codes "trana.not_after"
policy_id (limit offset amount) = codes "trana.limit"

-- `none` is an entry that is `null` or not in the table.
unfoldable pub guard_program_id : Cluster → Option (List ℕ)
guard_program_id devnet = some (codes "TRAqChewX8boPDuBbVXjS7iCQAnh9gDThfBRwXauwsG")
guard_program_id localnet = some (codes "GYhng7fbz51319ZwD1uBunBZs777C3KjmS52rYRcKfXn")
guard_program_id mainnet_beta = none
guard_program_id custom = none

unfoldable pub authority_program_id : Cluster → Option (List ℕ)
authority_program_id devnet = some (codes "TRNA8iyPm9AuBGiTeSirJm6F4jsxvq66LqfFeU7G4AN")
authority_program_id localnet = some (codes "KoXvrg4DBLKa5U6LCUpWXJE1FHYqwaozqDqDcBXvGEE")
authority_program_id mainnet_beta = none
authority_program_id custom = none

-- A registered credential: the compressed public key and the authenticator's id for it.
pub record PasskeyHandle : Type 0 where
  pub pubkey_bytes : List ℕ
  pub credential_id : List ℕ
