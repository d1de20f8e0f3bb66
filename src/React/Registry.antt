-- ===== src/React/Registry.antt =====
-- packages/sdk/src/react/registry.ts: reading the registry account from its bytes.
pub mod Fields
pub mod Layout
use trana.Prelude.{
  ℕ, zero, suc, ◌+◌, List, [], ◌∷◌, Option, none, some, Bool, false, true, ltb, leb, ◌==◌,
  if◌then◌else◌,
}
use trana.Prelude.{length, codes, get_elem?}
use trana.Bytes.{slice, le_value, ◌>>=◌}
use mathlib.Core.Option

pub record RegistryState : Type 0 where
  pub owner : List ℕ
  pub pubkey : List ℕ
  pub credential_id : List ℕ
  pub enabled : Bool
  pub nonce : ℕ

-- `getUint32(offset, true)` and `getBigUint64(offset, true)`, by the number of bytes; `none` is the
-- RangeError past the end.
unfoldable pub uint_at : List ℕ → (offset k : ℕ) → Option ℕ
uint_at bytes offset k =
    if leb (offset + k) (length bytes)
    then some (le_value (slice bytes offset (offset + k)))
    else none

abbrev pub byte_is_one : Option ℕ → Bool
byte_is_one none = false
byte_is_one (some b) = b == 1

unfoldable pub parse_registry_account : List ℕ → Option RegistryState
parse_registry_account bytes = do
  pk_len ← uint_at bytes 41 4
  cred_len ← uint_at bytes (45 + pk_len) 4
  nonce ← uint_at bytes (45 + pk_len + 4 + cred_len + 1) 8
  some (record {
    owner = slice bytes 8 40;
    pubkey = slice bytes 45 (45 + pk_len);
    credential_id = slice bytes (45 + pk_len + 4) (45 + pk_len + 4 + cred_len);
    enabled = byte_is_one (get_elem? bytes (45 + pk_len + 4 + cred_len));
    nonce = nonce;
  })

-- What the SDK reaches on the chain: `getAccountInfo` with the data of an account that exists, or an
-- exception; and address derivation.
pub record Accounts : Type 0 where
  pub account_data : (pda : List ℕ) → Option (Option (List ℕ))
  pub find_program_address : (seeds : List (List ℕ)) → (program : List ℕ) → List ℕ

unfoldable pub find_registry_pda : Accounts → (wallet program : List ℕ) → List ℕ
find_registry_pda accounts wallet program =
    accounts.find_program_address (codes "passkey" ∷ wallet ∷ []) program

-- `null` for no account or one below 46 bytes; `none` is an exception.
unfoldable pub fetched : Option (List ℕ) → Option (Option RegistryState)
fetched none = some none
fetched (some bytes) =
    if ltb (length bytes) 46 then some none else Option.map some (parse_registry_account bytes)

unfoldable pub fetch_registry : Accounts → (wallet program : List ℕ) → Option (Option RegistryState)
fetch_registry accounts wallet program = do
  info ← accounts.account_data (find_registry_pda accounts wallet program)
  fetched info

-- The listener of `subscribeRegistry`: what its callback gets for the data of a change. An exception
-- of the parser gives `null`.
unfoldable pub on_account_change : List ℕ → Option RegistryState
on_account_change bytes = if ltb (length bytes) 46 then none else parse_registry_account bytes
