-- ===== src/Landing/Registry.antt =====
-- apps/landing/lib/vault.ts: reading the passkey registry of the guard program.
pub mod Layout
pub mod Reading
use trana.Prelude.{ℕ, zero, suc, ◌+◌, List, [], ◌∷◌, Option, none, some, if◌then◌else◌, length, ltb}
use trana.Bytes.{slice, ◌>>=◌}
use trana.Types.{PasskeyHandle}
use trana.React.Registry.{uint_at}
use trana.Landing.Vault.{Account, Addresses, Programs, Connection, get_registry_pda}
use mathlib.Core.Option

unfoldable pub read_nonce : Option Account → Option ℕ
read_nonce none = some 0
read_nonce (some account) = uint_at account.contents 40 8

unfoldable pub fetch_registry_nonce :
    Addresses → Programs → Connection → (owner : List ℕ) → Option ℕ
fetch_registry_nonce addresses programs connection owner = do
  info ← connection.account_info (get_registry_pda addresses programs owner)
  read_nonce info

-- A `StoredPasskey` from an offset, with the offset behind it.
unfoldable pub entry_at : List ℕ → (off : ℕ) → Option (PasskeyHandle × ℕ)
entry_at d off = do
  pk_len ← uint_at d (off + 1) 4
  cid_len ← uint_at d (off + 1 + 4 + pk_len) 4
  some (
    record {
      pubkey_bytes = slice d (off + 1 + 4) (off + 1 + 4 + pk_len);
      credential_id = slice d (off + 1 + 4 + pk_len + 4) (off + 1 + 4 + pk_len + 4 + cid_len);
    },
    off + 1 + 4 + pk_len + 4 + cid_len,
  )

-- The loop, with the number of entries left.
unfoldable pub entries_from : List ℕ → (off left : ℕ) → Option (List PasskeyHandle)
entries_from d off zero = some []
entries_from d off (suc left) = do
  (entry, off') ← entry_at d off
  rest ← entries_from d off' left
  some (entry ∷ rest)

unfoldable pub all_passkeys : List ℕ → Option (List PasskeyHandle)
all_passkeys d =
    if ltb (length d) 53 then some [] else do vec_len ← uint_at d 48 4; entries_from d 52 vec_len

unfoldable pub first_passkey : List ℕ → Option (Option PasskeyHandle)
first_passkey d =
    if ltb (length d) 53 then some none else Option.map (λ e. some e.0) (entry_at d 52)

unfoldable pub fetch_all_passkeys :
    Addresses → Programs → Connection → (owner : List ℕ) → Option (List PasskeyHandle)
fetch_all_passkeys addresses programs connection owner = do
  info ← connection.account_info (get_registry_pda addresses programs owner)
  elim info [ none ↦ some [] | some account ↦ all_passkeys account.contents ]

unfoldable pub fetch_first_passkey :
    Addresses → Programs → Connection → (owner : List ℕ) → Option (Option PasskeyHandle)
fetch_first_passkey addresses programs connection owner = do
  info ← connection.account_info (get_registry_pda addresses programs owner)
  elim info [ none ↦ some none | some account ↦ first_passkey account.contents ]
