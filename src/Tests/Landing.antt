-- ===== src/Tests/Landing.antt =====
-- The site's client of the vault and guard programs, on concrete accounts.
use trana.Prelude.{
  ℕ, ◌+◌, ◌≡◌, refl, arith, List, [], ◌∷◌, ◌++◌, some, true, false, length, replicate, codes,
}
use trana.Types.{PasskeyHandle, policy_id}
use trana.Landing.Vault.{
  Addresses, Programs, Connection, UserDepositState, pos, negsuc, read_deposit,
}
use trana.Landing.Vault.Deposits.{deposit_bytes, read_deposit-deposit_bytes}
use trana.Landing.Registry.{read_nonce, all_passkeys}
use trana.Landing.Registry.Layout.{entries_bytes}
use trana.Landing.Registry.Reading.{all_passkeys-on_chain}
use trana.Landing.Status.{PolicyStatus, policy_status, within_window}
use trana.Landing.Status.Program.{Withdrawal, all_withdrawn, enforced, policy_status-misses_burst}
use trana.React.Registry.Layout.{on_chain}
use trana.Tests.{ids, wallet, guard_id, compressed_key, of_text, of_text-whole}

abbrev pub programs : Programs
programs = record {
  ids = ids;
  vault_program = replicate 32 10;
  guard_program = guard_id;
  system_program = replicate 32 0;
}

-- Addresses by the number of seeds.
abbrev pub addresses : Addresses
addresses = record {
  find_program_address = λ seeds program. replicate 32 (40 + length seeds);
  of_bytes = of_text;
  of_bytes_32 = of_text-whole;
}

abbrev pub handle : PasskeyHandle
handle = record { pubkey_bytes = compressed_key; credential_id = 1 ∷ 2 ∷ [] }

abbrev other_handle : PasskeyHandle
other_handle = record { pubkey_bytes = 3 ∷ replicate 32 8; credential_id = 9 ∷ [] }

abbrev keys : List (ℕ × PasskeyHandle)
keys = (0, handle) ∷ (0, other_handle) ∷ []

abbrev pub registry_bytes : List ℕ
registry_bytes = on_chain (replicate 8 7) wallet 5 2 (entries_bytes keys ++ (0 ∷ 0 ∷ []))

all_passkeys-on_chain_example :
    (read_nonce (some (record { lamports = 1; contents = registry_bytes })) ≡ some 5)
    × (all_passkeys registry_bytes ≡ some (handle ∷ other_handle ∷ []))
all_passkeys-on_chain_example =
    all_passkeys-on_chain (replicate 8 7) wallet (0 ∷ 0 ∷ []) 5 keys 1 refl refl (omega arith)
      (omega arith) ((omega arith, omega arith), ((omega arith, omega arith), tt))

pub registry_read : all_passkeys registry_bytes ≡ some (handle ∷ other_handle ∷ [])
registry_read =
    (all_passkeys-on_chain (replicate 8 7) wallet (0 ∷ 0 ∷ []) 5 keys 1 refl refl (omega arith)
      (omega arith) ((omega arith, omega arith), ((omega arith, omega arith), tt))).1

abbrev deposit : UserDepositState
deposit = record {
  balance = 3000000000;
  exists_on_chain = true;
  window_withdrawn = 0;
  last_withdraw_at = negsuc 4;
  last_withdraw_slot = 77;
}

read_deposit-deposit_bytes_example :
    read_deposit (
      some (record {
        lamports = 1;
        contents = deposit_bytes (replicate 8 7) (replicate 32 1) wallet deposit (255 ∷ []);
      }))
    ≡ some deposit
read_deposit-deposit_bytes_example =
    read_deposit-deposit_bytes 1 (replicate 8 7) (replicate 32 1) wallet (255 ∷ []) deposit refl
      refl refl refl (omega arith) (omega arith) (omega arith) (omega arith)

abbrev pub config_bytes : List ℕ
config_bytes = replicate 8 7 ++ (replicate 32 1 ++ (replicate 32 9 ++ (1 ∷ [])))

abbrev pub connection : Connection
connection = record {
  account_info = λ pda. some (some (record { lamports = 1; contents = config_bytes }));
  rent_exemption = λ size. some 0;
}

-- A free withdrawal of 0.4 SOL, and the page ten seconds later.
abbrev withdrawals : List Withdrawal
withdrawals = record { amount = 400000000; now = 1000; slot = 90 } ∷ []

abbrev before : UserDepositState
before = record deposit { last_withdraw_at = pos 0 }

inside : within_window (all_withdrawn before withdrawals).last_withdraw_at 1010 ≡ true
unfolding all_withdrawn trana.Landing.Status.Program.withdrawn within_window
inside = refl

policy_status-misses_burst_example :
    (policy_id (enforced (all_withdrawn before withdrawals) 1010) ≡ codes "trana.not_before")
    × (status : PolicyStatus) × (policy_status
          (some (all_withdrawn before withdrawals))
          (some 91)
          1010
        ≡ some status)
    × (status.policy ≡ codes "trana.limit")
    × (status.is_burst ≡ false)
    × (status.slots_left ≡ 0)
policy_status-misses_burst_example =
    policy_status-misses_burst before withdrawals (some 91) 1010 refl (omega arith) inside
