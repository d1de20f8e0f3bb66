-- ===== src/Landing/Page/Guards.antt =====
-- What the handlers of apps/landing/app/try/page.tsx test before they do anything.
use trana.Prelude.{ℕ, List, ◌∷◌, Option, none, some, Bool, true, false, ltb, leb, ◌==◌, ◌&&◌, not}
use trana.Prelude.{if◌then◌else◌}
use trana.Prelude.Result.{Result, ok, err, guard, or_throw, ◌>>=◌, ◌>>◌}
use trana.Landing.Vault.{UserDepositState}
use trana.Landing.Page.{Page, Failure, Run, caught, failed}
use trana.Landing.Page.{pool_missing, nothing_to_withdraw, deposit_too_small, pool_too_small}

-- Why a handler does nothing: silently, by opening the wallet's dialog, or with a message.
pub data Refusal : Type 0 where
  silent connect : Refusal
  told : Failure → Refusal

abbrev pub held : Option UserDepositState → Option UserDepositState
held none = none
held (some d) = if d.exists_on_chain && not (d.balance == 0) then some d else none

-- `poolLamports !== null && poolLamports < lamports` fails.
abbrev pub covers : Option ℕ → (lamports : ℕ) → Bool
covers none lamports = true
covers (some pool) lamports = leb lamports pool

abbrev pub is_true : Option Bool → Bool
is_true none = false
is_true (some b) = b

unfoldable pub withdraw_guard : Page → (lamports : ℕ) → Result Refusal (List ℕ)
withdraw_guard page lamports = do
  guard (ltb 0 lamports) silent
  owner ← or_throw page.public_key connect
  guard (is_true page.pool_exists) (told pool_missing)
  deposit ← or_throw (held page.user_deposit) (told nothing_to_withdraw)
  guard (leb lamports deposit.balance) (told deposit_too_small)
  guard (covers page.pool_lamports lamports) (told pool_too_small)
  ok owner

unfoldable pub refused : Refusal → Page → Page
refused silent page = page
refused connect page = record page { wallet_modal = true }
refused (told failure) page = record page { shown = failed failure ∷ page.shown }

unfoldable pub deposit_guard : Page → (lamports : ℕ) → Result Refusal (List ℕ)
deposit_guard page lamports = do
  guard (ltb 0 lamports) silent
  owner ← or_throw page.public_key connect
  guard (is_true page.pool_exists) (told pool_missing)
  ok owner

abbrev pub guarded : Page → Result Refusal (List ℕ) → (body : List ℕ → Run (Unit {0})) → Page
guarded page (ok owner) body = caught (body owner) page
guarded page (err r) body = refused r page
