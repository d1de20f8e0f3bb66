-- ===== src/Landing/Page.antt =====
-- apps/landing/app/try/page.tsx: the page's state and what its handlers reach. A handler is a sequence
-- of calls from one moment to the next; the RPC, the wallet, the browser and the clock answer by moment.
pub mod Steps
pub mod Proof
pub mod Guards
pub mod Withdraw
pub mod Manage
pub mod Runs
pub mod Sent
pub mod Kept
pub mod Coverage
pub mod Safety
pub mod Upgrades
pub mod Success
pub mod Secure
use trana.Prelude.{ℕ, ◌+◌, List, [], ◌∷◌, Option, none, some, Bool, true, false}
use trana.Prelude.Result.{Result, ok, err, or_throw}
use trana.Types.{KeyText, Instruction, PasskeyHandle}
use trana.Secp256r1.{Memory}
use trana.Webauthn.{Navigator}
use trana.Landing.Vault.{Addresses, Programs, Connection, UserDepositState}

pub record Transaction : Type 0 where
  pub instructions : List Instruction
  pub recent_blockhash : List ℕ
  pub fee_payer : List ℕ

-- What a simulation reports: its logs, which may be absent, and whether it has an error.
pub record Simulation : Type 0 where
  pub logs : Option (List (List ℕ))
  pub has_error : Bool

pub record SignatureStatus : Type 0 where
  pub confirmed_or_finalized : Bool
  pub has_error : Bool

pub record Recent : Type 0 where
  pub signature : List ℕ
  pub has_error : Bool
  pub block_time : Option ℕ

-- `none` is an exception. `confirm` tells whether the result has no error; `status` may be absent, and
-- `recent` is the latest signature of an address, if there is one.
pub record World : Type 0 where
  pub keys : KeyText
  pub memory : Memory
  pub programs : Programs
  pub addresses : Addresses
  pub demo_pool : List ℕ
  pub rp_id : List ℕ
  pub connection : ℕ → Connection
  pub navigator : ℕ → Navigator
  pub random_32 : ℕ → List ℕ
  pub now_ms : ℕ → ℕ
  pub latest_blockhash : ℕ → Option (List ℕ)
  pub simulate : ℕ → Transaction → Option Simulation
  pub send_transaction : ℕ → Transaction → Option (List ℕ)
  pub confirm : ℕ → (signature blockhash : List ℕ) → Option Bool
  pub status : ℕ → (signature : List ℕ) → Option (Option SignatureStatus)
  pub recent : ℕ → (address : List ℕ) → Option (Option Recent)

pub data Stage : Type 0 where
  simulating registering registered proving sending confirming reading approving creating checking :
      Stage

-- The errors that the page words itself, and any other exception.
pub data Failure : Type 0 where
  pool_missing nothing_to_withdraw deposit_too_small pool_too_small simulation_failed : Failure
  registration_failed transaction_failed not_registered no_credential program_not_found : Failure
  bad_program_id bad_buffer no_buffer thrown : Failure

pub data TxResult : Type 0 where
  idle : TxResult
  pending : Stage → TxResult
  done : (signature : Option (List ℕ)) → TxResult
  failed : Failure → TxResult

-- The state of the page that its handlers use; `public_key` is the key of a connected wallet. `sent`
-- and `shown` are what was handed to the wallet and what was shown, the latest first.
pub record Page : Type 0 where
  pub moment : ℕ
  pub public_key : Option (List ℕ)
  pub pool_exists : Option Bool
  pub pool_lamports : Option ℕ
  pub user_deposit : Option UserDepositState
  pub passkey : Option PasskeyHandle
  pub wallet_modal : Bool
  pub sent : List Transaction
  pub shown : List TxResult

-- A piece of a handler: a value or an exception, and the page after it.
abbrev pub Run {ℓ} : Type ℓ → Type ℓ
Run A = Page → Result Failure A × Page

abbrev pub continue {ℓ κ} :
    {A : Type ℓ} {B : Type κ}
    → Result Failure A × Page
    → (next : A → Run B) → Result Failure B × Page
continue (ok a, page) next = next a page
continue (err e, page) next = (err e, page)

infixl 5 ◌>>◌ ◌>>=◌
unfoldable pub ◌>>=◌ {ℓ κ} : {A : Type ℓ} {B : Type κ} → Run A → (next : A → Run B) → Run B
◌>>=◌ run next page = continue (run page) next

unfoldable pub ◌>>◌ {κ} : {B : Type κ} → Run (Unit {0}) → Run B → Run B
run >> rest = run >>= λ finished. rest

-- A value that is there, or an exception.
unfoldable pub lift : {A : Type 0} → Result Failure A → Run A
lift result page = (result, page)

unfoldable pub return : {A : Type 0} → A → Run A
return a page = (ok a, page)

-- A call that is answered at this moment.
unfoldable pub ask : {A : Type 0} → (ℕ → Option A) → Run A
ask answer page = (or_throw (answer page.moment) thrown, record page { moment = page.moment + 1 })

-- A call inside `try`: its exception is `none`.
unfoldable pub try_ask : {A : Type 0} → (ℕ → Option A) → Run (Option A)
try_ask answer page = (ok (answer page.moment), record page { moment = page.moment + 1 })

unfoldable pub show : TxResult → Run (Unit {0})
show result page = (ok tt, record page { shown = result ∷ page.shown })

unfoldable pub store_passkey : PasskeyHandle → Run (Unit {0})
store_passkey handle page = (ok tt, record page { passkey = some handle })

-- `passkeyRef.current`
unfoldable pub stored_passkey : Run (Option PasskeyHandle)
stored_passkey page = (ok page.passkey, page)

-- `sendTransaction` inside `try`.
unfoldable pub try_send : World → Transaction → Run (Option (List ℕ))
try_send world tx page = (
  ok (world.send_transaction page.moment tx),
  record page { moment = page.moment + 1; sent = tx ∷ page.sent },
)

unfoldable pub send : World → Transaction → Run (List ℕ)
send world tx page = (
  or_throw (world.send_transaction page.moment tx) thrown,
  record page { moment = page.moment + 1; sent = tx ∷ page.sent },
)

-- The `try … catch` around a handler's body: its exception is shown.
unfoldable pub caught_end : Result Failure (Unit {0}) × Page → Page
caught_end (ok finished, page) = page
caught_end (err e, page) = record page { shown = failed e ∷ page.shown }

abbrev pub caught : Run (Unit {0}) → Page → Page
caught run page = caught_end (run page)
