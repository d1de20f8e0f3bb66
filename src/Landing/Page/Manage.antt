-- ===== src/Landing/Page/Manage.antt =====
-- The handlers of apps/landing/app/try/page.tsx that manage keys and programs: handleUpgradeLeak,
-- handleUpgradePasskey, handleGenerateCredential and handleAddPasskey. The authority program's builder is
-- a parameter.
use trana.Prelude.{ℕ, List, [], ◌∷◌, Option, none, some, Bool, true, false, codes, if◌then◌else◌}
use trana.Prelude.Result.{Result, err, guard, or_throw}
use trana.Bytes.{slice}
use trana.Bytes.Hex.{to_hex}
use trana.Types.{Instruction}
use trana.React.Logs.{trim}
use trana.Landing.Vault.{meta, build_add_passkey_ix}
use trana.Landing.Registry.{fetch_first_passkey}
use trana.Landing.Page.{
  World, Page, Transaction, Failure, Run, ◌>>=◌, ◌>>◌, lift, return, ask, try_ask, show,
  store_passkey, stored_passkey, send, try_send,
}
use trana.Landing.Page.{
  pending, done, sending, approving, creating, reading, checking, transaction_failed, no_credential,
  program_not_found, bad_program_id, bad_buffer, no_buffer, thrown,
}
use trana.Landing.Page.Guards.{Refusal, connect, guarded, is_true}
use trana.Landing.Page.Steps.{
  prepared, refresh_deposit, ensure_registry, registry_info, create_passkey,
}
use trana.Landing.Page.Withdraw.{confirmed_or_status, failure_of}
use trana.Landing.Page.Proof.{nonce_of, proven}

-- `executeUpgrade` of the authority client, and the accounts of the loader.
pub record Loader : Type 0 where
  pub bpf_upgradeable : List ℕ
  pub sysvar_rent : List ℕ
  pub sysvar_clock : List ℕ
  pub execute_upgrade_ix : (owner program program_data buffer spill : List ℕ) → Instruction

abbrev key_of : World → (text : List ℕ) → Failure → Run (List ℕ)
key_of world text failure = lift (or_throw (world.keys.of_base58 text) failure)

-- The address of the program's data: bytes 4 to 36 of its account.
unfoldable pub program_data : World → (target : List ℕ) → Run (List ℕ)
program_data world target = do
  info ← ask (λ t. (world.connection t).account_info target)
  account ← lift (or_throw info program_not_found)
  lift (or_throw (world.addresses.of_bytes (slice account.contents 4 36)) thrown)

-- The upgrade as the loader takes it, signed by the wallet alone.
unfoldable pub direct_upgrade_ix :
    Loader → (owner program_data target buffer : List ℕ) → Instruction
direct_upgrade_ix loader owner program_data target buffer = record {
  program_id = loader.bpf_upgradeable;
  keys =
      meta program_data false true
      ∷ meta target false true
      ∷ meta buffer false true
      ∷ meta owner true true
      ∷ meta loader.sysvar_rent false false
      ∷ meta loader.sysvar_clock false false
      ∷ [];
  payload = 3 ∷ 0 ∷ 0 ∷ 0 ∷ [];
}

abbrev pub is_blank : List ℕ → Bool
is_blank [] = true
is_blank (c ∷ text) = false

abbrev pub connected : Page → Result Refusal (List ℕ)
connected page = or_throw page.public_key connect

unfoldable pub upgrade_leak_body :
    World → Loader → (target_text buffer_text : List ℕ) → (owner : List ℕ) → Run (Unit {0})
upgrade_leak_body world loader target_text buffer_text owner = do
  show (pending sending)
  target ← key_of world target_text bad_program_id
  lift (guard (if is_blank (trim buffer_text) then false else true) no_buffer)
  buffer ← key_of world buffer_text bad_buffer
  data_address ← program_data world target
  tx ← prepared world owner (direct_upgrade_ix loader owner data_address target buffer ∷ [])
  signature ← send world tx
  fine ← ask (λ t. world.confirm t signature tx.recent_blockhash)
  lift (guard fine transaction_failed)
  show (done (some signature))

unfoldable pub handle_upgrade_leak :
    World → Loader → (target_text buffer_text : List ℕ) → Page → Page
handle_upgrade_leak world loader target_text buffer_text page =
    guarded page (connected page) (upgrade_leak_body world loader target_text buffer_text)

-- After the wallet's answer; without a signature its exception stands.
unfoldable pub upgraded : World → Transaction → Option (List ℕ) → Run (List ℕ)
upgraded world tx none = lift (err thrown)
upgraded world tx (some signature) = do
  fine ← try_ask (λ t. world.confirm t signature tx.recent_blockhash)
  confirmed_or_status world signature (failure_of fine) (is_true fine)

unfoldable pub upgrade_passkey_body :
    World → Loader → (target_text buffer_text : List ℕ) → (owner : List ℕ) → Run (Unit {0})
upgrade_passkey_body world loader target_text buffer_text owner = do
  lift (guard (if is_blank (trim buffer_text) then false else true) no_buffer)
  target ← key_of world target_text bad_program_id
  buffer ← key_of world (trim buffer_text) bad_buffer
  show (pending reading)
  data_address ← program_data world target
  info ← registry_info world owner
  ensure_registry world owner (return tt) info
  stored ← stored_passkey
  handle ← lift (or_throw stored no_credential)
  nonce ← nonce_of world owner
  instructions ←
      proven world owner (show (pending approving)) (some handle)
        (loader.execute_upgrade_ix owner target data_address buffer owner) nonce
        (codes "trana.require")
  tx ← prepared world owner instructions
  show (pending sending)
  answer ← try_send world tx
  signature ← upgraded world tx answer
  show (done (some signature))

unfoldable pub handle_upgrade_passkey :
    World → Loader → (target_text buffer_text : List ℕ) → Page → Page
handle_upgrade_passkey world loader target_text buffer_text page =
    guarded page (connected page) (upgrade_passkey_body world loader target_text buffer_text)

pub record Generated : Type 0 where
  pub pubkey_hex : List ℕ
  pub cred_id_hex : List ℕ

-- The bytes of a new credential in hexadecimal, for the command line.
unfoldable pub generate_credential : World → (owner : List ℕ) → Run Generated
generate_credential world owner = do
  show (pending creating)
  cred ← create_passkey world owner
  show (done none)
  return (record { pubkey_hex = to_hex cred.pubkey_bytes; cred_id_hex = to_hex cred.credential_id })

unfoldable pub add_passkey_body : World → (owner : List ℕ) → Run (Unit {0})
add_passkey_body world owner = do
  show (pending checking)
  found ← ask (λ t. fetch_first_passkey world.addresses world.programs (world.connection t) owner)
  existing ← lift (or_throw found no_credential)
  store_passkey existing
  show (pending creating)
  new_cred ← create_passkey world owner
  show (pending approving)
  nonce ← nonce_of world owner
  ix ← ask (λ t.
      build_add_passkey_ix world.addresses world.programs owner (world.connection t)
        new_cred.pubkey_bytes new_cred.credential_id)
  instructions ← proven world owner (return tt) none ix nonce (codes "trana.require")
  tx ← prepared world owner instructions
  show (pending sending)
  signature ← send world tx
  fine ← ask (λ t. world.confirm t signature tx.recent_blockhash)
  lift (guard fine transaction_failed)
  store_passkey new_cred
  refresh_deposit world owner
  show (done (some signature))

unfoldable pub handle_add_passkey : World → Page → Page
handle_add_passkey world page = guarded page (connected page) (add_passkey_body world)
