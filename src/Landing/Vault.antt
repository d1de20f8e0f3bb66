-- ===== src/Landing/Vault.antt =====
-- apps/landing/lib/vault.ts: the site's client of the vault and guard programs, which encodes and
-- decodes by hand. The RPC and address derivation are parameters; the data of an account is the whole
-- of its buffer, as in the browser.
pub mod Deposits
pub mod Calldata
use trana.Prelude.{
  ℕ, zero, suc, ◌+◌, ◌-◌, ◌^◌, ◌≡◌, List, [], ◌∷◌, ◌++◌, Option, none, some, Bool, true, false,
}
use trana.Prelude.{if◌then◌else◌, length, codes, ltb}
use trana.Bytes.{slice, le_bytes, ◌>>=◌}
use trana.Types.{Instruction, AccountMeta}
use trana.Secp256r1.{Ids, borsh_bytes}
use trana.React.Registry.{uint_at}
use mathlib.Core.Option

pub record Account : Type 0 where
  pub lamports : ℕ
  pub contents : List ℕ

-- The programs that the site addresses.
pub record Programs : Type 0 where
  pub ids : Ids
  pub vault_program : List ℕ
  pub guard_program : List ℕ
  pub system_program : List ℕ

-- web3.js: addresses, `new PublicKey(bytes)`, which keeps 32 bytes as they are and throws on more.
pub record Addresses : Type 0 where
  pub find_program_address : (seeds : List (List ℕ)) → (program : List ℕ) → List ℕ
  pub of_bytes : List ℕ → Option (List ℕ)
  pub of_bytes_32 : (bytes : List ℕ) → length bytes ≡ 32 → of_bytes bytes ≡ some bytes

-- The RPC at one moment; `none` is an exception, and an account may be absent.
pub record Connection : Type 0 where
  pub account_info : (pda : List ℕ) → Option (Option Account)
  pub rent_exemption : (size : ℕ) → Option ℕ

unfoldable pub get_pool_pda : Addresses → Programs → (authority : List ℕ) → List ℕ
get_pool_pda addresses programs authority =
    addresses.find_program_address (codes "trana-pool" ∷ authority ∷ []) programs.vault_program

unfoldable pub get_user_deposit_pda : Addresses → Programs → (pool user : List ℕ) → List ℕ
get_user_deposit_pda addresses programs pool user =
    addresses.find_program_address (codes "deposit" ∷ pool ∷ user ∷ []) programs.vault_program

unfoldable pub get_registry_pda : Addresses → Programs → (owner : List ℕ) → List ℕ
get_registry_pda addresses programs owner =
    addresses.find_program_address (codes "passkey" ∷ owner ∷ []) programs.guard_program

unfoldable pub get_config_pda : Addresses → Programs → List ℕ
get_config_pda addresses programs =
    addresses.find_program_address (codes "config" ∷ []) programs.guard_program

pub record PoolState : Type 0 where
  pub lamports : ℕ
  pub exists_on_chain : Bool

-- `Math.max(0, a - b)` is the subtraction that stops at 0.
unfoldable pub fetch_pool_state : Connection → (pool_pda : List ℕ) → Option PoolState
fetch_pool_state connection pool_pda = do
  info ← connection.account_info pool_pda
  elim info [
    | none ↦ some (record { lamports = 0; exists_on_chain = false })
    | some account ↦
        Option.map (λ rent. record { lamports = account.lamports - rent; exists_on_chain = true })
          (connection.rent_exemption (length account.contents))
  ]

pub data ℤ : Type 0 where
  pos : ℕ → ℤ
  negsuc : ℕ → ℤ

-- `getBigInt64`, from the unsigned value of the field.
unfoldable pub signed_64 : ℕ → ℤ
signed_64 v = if ltb v (2 ^ 63) then pos v else negsuc (2 ^ 64 - 1 - v)

pub record UserDepositState : Type 0 where
  pub balance : ℕ
  pub exists_on_chain : Bool
  pub window_withdrawn : ℕ
  pub last_withdraw_at : ℤ
  pub last_withdraw_slot : ℕ

abbrev pub empty_deposit : (exists_on_chain : Bool) → UserDepositState
empty_deposit exists_on_chain = record {
  balance = 0;
  exists_on_chain = exists_on_chain;
  window_withdrawn = 0;
  last_withdraw_at = pos 0;
  last_withdraw_slot = 0;
}

-- From the account on; `none` is the RangeError of `DataView`.
unfoldable pub read_deposit : Option Account → Option UserDepositState
read_deposit none = some (empty_deposit false)
read_deposit (some account) =
    if ltb (length account.contents) 97 then some (empty_deposit true) else do
      balance ← uint_at account.contents 72 8
      slot ← uint_at account.contents 80 8
      window ← uint_at account.contents 88 8
      at ← uint_at account.contents 96 8
      some (record {
        balance = balance;
        exists_on_chain = true;
        window_withdrawn = window;
        last_withdraw_at = signed_64 at;
        last_withdraw_slot = slot;
      })

unfoldable pub fetch_user_deposit : Connection → (deposit_pda : List ℕ) → Option UserDepositState
fetch_user_deposit connection deposit_pda = do
  info ← connection.account_info deposit_pda
  read_deposit info

abbrev pub deposit_disc : List ℕ
deposit_disc = 242 ∷ 35 ∷ 198 ∷ 137 ∷ 82 ∷ 225 ∷ 242 ∷ 182 ∷ []

abbrev pub withdraw_disc : List ℕ
withdraw_disc = 183 ∷ 18 ∷ 70 ∷ 156 ∷ 148 ∷ 109 ∷ 161 ∷ 34 ∷ []

abbrev pub register_passkey_disc : List ℕ
register_passkey_disc = 16 ∷ 2 ∷ 121 ∷ 116 ∷ 194 ∷ 17 ∷ 247 ∷ 233 ∷ []

abbrev pub add_passkey_disc : List ℕ
add_passkey_disc = 173 ∷ 230 ∷ 84 ∷ 153 ∷ 54 ∷ 144 ∷ 214 ∷ 37 ∷ []

-- An account of an instruction, in the order signer, writable.
abbrev pub meta : (pubkey : List ℕ) → (is_signer is_writable : Bool) → AccountMeta
meta pubkey is_signer is_writable = record {
  pubkey = pubkey;
  is_signer = is_signer;
  is_writable = is_writable;
}

unfoldable pub build_deposit_ix :
    Programs → (pool user_deposit depositor : List ℕ) → (lamports : ℕ) → Instruction
build_deposit_ix programs pool user_deposit depositor lamports = record {
  program_id = programs.vault_program;
  keys =
      meta pool false true
      ∷ meta user_deposit false true
      ∷ meta depositor true true
      ∷ meta programs.system_program false false
      ∷ [];
  payload = deposit_disc ++ le_bytes 8 lamports;
}

unfoldable pub build_withdraw_ix :
    Programs
    → (pool user_deposit owner destination registry : List ℕ) → (lamports : ℕ) → Instruction
build_withdraw_ix programs pool user_deposit owner destination registry lamports = record {
  program_id = programs.vault_program;
  keys =
      meta pool false true
      ∷ meta user_deposit false true
      ∷ meta owner true false
      ∷ meta destination false true
      ∷ meta programs.guard_program false false
      ∷ meta registry false true
      ∷ meta programs.ids.sysvar_instructions false false
      ∷ [];
  payload = withdraw_disc ++ le_bytes 8 lamports;
}

unfoldable pub fetch_treasury : Addresses → Programs → Connection → Option (List ℕ)
fetch_treasury addresses programs connection = do
  info ← connection.account_info (get_config_pda addresses programs)
  account ← info
  addresses.of_bytes (slice account.contents 40 72)

-- The data of both passkey instructions: the kind of the key is 0.
abbrev pub passkey_data : (disc pubkey_bytes credential_id : List ℕ) → List ℕ
passkey_data disc pubkey_bytes credential_id =
    disc ++ (0 ∷ (borsh_bytes pubkey_bytes ++ borsh_bytes credential_id))

abbrev pub passkey_accounts : Addresses → Programs → (owner treasury : List ℕ) → List AccountMeta
passkey_accounts addresses programs owner treasury =
    meta (get_registry_pda addresses programs owner) false true
    ∷ meta owner true true
    ∷ meta programs.system_program false false
    ∷ meta (get_config_pda addresses programs) false false
    ∷ meta treasury false true
    ∷ []

unfoldable pub build_register_passkey_ix :
    Addresses
    → Programs
    → (owner : List ℕ) → Connection
    → (pubkey_bytes credential_id : List ℕ) → Option Instruction
build_register_passkey_ix addresses programs owner connection pubkey_bytes credential_id = do
  treasury ← fetch_treasury addresses programs connection
  some (record {
    program_id = programs.guard_program;
    keys = passkey_accounts addresses programs owner treasury;
    payload = passkey_data register_passkey_disc pubkey_bytes credential_id;
  })

unfoldable pub build_add_passkey_ix :
    Addresses
    → Programs
    → (owner : List ℕ) → Connection
    → (pubkey_bytes credential_id : List ℕ) → Option Instruction
build_add_passkey_ix addresses programs owner connection pubkey_bytes credential_id = do
  treasury ← fetch_treasury addresses programs connection
  some (record {
    program_id = programs.guard_program;
    keys =
        passkey_accounts addresses programs owner treasury
        ++ (meta programs.ids.sysvar_instructions false false ∷ []);
    payload = passkey_data add_passkey_disc pubkey_bytes credential_id;
  })
