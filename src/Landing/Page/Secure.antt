-- ===== src/Landing/Page/Secure.antt =====
-- handleAuthSecure of apps/landing/app/try/page.tsx: hands a program's upgrade authority to the address
-- that the authority program derives. The authority client's builder is a parameter; the lines of the
-- console are left out.
pub mod Lock
pub mod Handover
pub mod Upgradable
use trana.Prelude.{ℕ, List, [], ◌∷◌, Option, none, some, Bool, true, false, ◌||◌, length, ltb}
use trana.Prelude.{if◌then◌else◌, codes}
use trana.Prelude.Equality.{same}
use trana.Prelude.Result.{Result, ok, err, guard, or_throw}
use trana.Bytes.{slice}
use trana.Types.{Instruction}
use trana.Landing.Vault.{meta}
use trana.Landing.Page.{
  World, Page, Failure, Run, ◌>>=◌, ◌>>◌, lift, return, ask, send, thrown, transaction_failed,
  program_not_found,
}
use trana.Landing.Page.Steps.{prepared}
use trana.Landing.Page.Manage.{Loader, program_data}

-- `recordPda` and `register` of the authority client.
pub record AuthorityCalls : Type 0 where
  pub record_pda : (owner target : List ℕ) → List ℕ
  pub register_ix : (owner target : List ℕ) → Instruction

unfoldable pub set_authority_ix : Loader → (program_data owner pda : List ℕ) → Instruction
set_authority_ix loader program_data owner pda = record {
  program_id = loader.bpf_upgradeable;
  keys = meta program_data false true ∷ meta owner true false ∷ meta pda false false ∷ [];
  payload = 4 ∷ 0 ∷ 0 ∷ 0 ∷ [];
}

-- The upgrade authority that the program's data names: bytes 13 to 45 of its account.
unfoldable pub upgrade_authority : World → (program_data : List ℕ) → Run (List ℕ)
upgrade_authority world program_data = do
  info ← ask (λ t. (world.connection t).account_info program_data)
  account ← lift (or_throw info program_not_found)
  lift (or_throw (world.addresses.of_bytes (slice account.contents 13 45)) thrown)

pub data Secured : Type 0 where
  other_authority : Secured
  secured : (signature : List ℕ) → Secured

unfoldable pub hand_over :
    World → Loader → AuthorityCalls → (owner target program_data : List ℕ) → Run Secured
hand_over world loader calls owner target program_data = do
  tx ← prepared world owner (
      calls.register_ix owner target
      ∷ set_authority_ix loader program_data owner (calls.record_pda owner target)
      ∷ [])
  signature ← send world tx
  fine ← ask (λ t. world.confirm t signature tx.recent_blockhash)
  lift (guard fine transaction_failed)
  return (secured signature)

unfoldable pub secure_body : World → Loader → AuthorityCalls → (owner target : List ℕ) → Run Secured
secure_body world loader calls owner target = do
  address ← program_data world target
  authority ← upgrade_authority world address
  if same authority owner
      then hand_over world loader calls owner target address
      else return other_authority

pub data AuthStatus : Type 0 where
  submitting confirmed failed : AuthStatus

-- The part of the page that this handler alone uses: the two flags that keep it from running twice, and
-- what it reports.
pub record Console : Type 0 where
  pub running : Bool
  pub busy : Bool
  pub status : Option AuthStatus
  pub tx_signature : Option (List ℕ)
  pub steps_done : Bool

abbrev released : Console → Console
released c = record c { running = false; busy = false }

unfoldable pub secure_end : Console → Result Failure Secured × Page → Console × Page
secure_end c (ok other_authority, page) = (released c, page)
secure_end c (ok (secured signature), page) = (
  released (record c { status = some confirmed; tx_signature = some signature; steps_done = true }),
  page,
)
secure_end c (err e, page) = (released (record c { status = some failed }), page)

-- From the key of the program on; `none` is a text that is no key.
unfoldable pub secure_target :
    World
    → Loader
    → AuthorityCalls
    → (owner : List ℕ) → (target : Option (List ℕ)) → Console × Page
    → Console × Page
secure_target world loader calls owner none (c, page) = (record c { running = false }, page)
secure_target world loader calls owner (some target) (c, page) =
    secure_end (record c { busy = true; status = some submitting })
      (secure_body world loader calls owner target page)

unfoldable pub secure_wallet :
    World
    → Loader
    → AuthorityCalls
    → (target_text : List ℕ) → (public_key : Option (List ℕ)) → Console × Page
    → Console × Page
secure_wallet world loader calls target_text none (c, page) =
    (record c { running = false }, record page { wallet_modal = true })
secure_wallet world loader calls target_text (some owner) (c, page) =
    if ltb (length target_text) 32
    then (record c { running = false }, page)
    else secure_target world loader calls owner (world.keys.of_base58 target_text) (c, page)

unfoldable pub handle_auth_secure :
    World → Loader → AuthorityCalls → (target_text : List ℕ) → Console × Page → Console × Page
handle_auth_secure world loader calls target_text (c, page) =
    if c.running || c.busy
    then (c, page)
    else secure_wallet world loader calls target_text page.public_key
        (record c { running = true }, page)
