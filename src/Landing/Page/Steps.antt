-- ===== src/Landing/Page/Steps.antt =====
-- The steps that the handlers of apps/landing/app/try/page.tsx share.
use trana.Prelude.{ℕ, List, [], ◌∷◌, ◌++◌, Option, none, some, Bool, false, not}
use trana.Prelude.{◌&&◌, take, drop, length, ◌-◌}
use trana.Prelude.Result.{Result, ok, err, guard}
use trana.Types.{Instruction, PasskeyHandle}
use trana.Webauthn.{register_passkey}
use trana.Landing.Vault.{
  Account, get_registry_pda, get_user_deposit_pda, fetch_pool_state, fetch_user_deposit,
  build_register_passkey_ix,
}
use trana.Landing.Registry.{fetch_first_passkey}
use trana.Landing.Page.{
  World, Transaction, SignatureStatus, Run, ◌>>=◌, ◌>>◌, lift, return, ask, show, store_passkey,
  send, registration_failed, pending, registering,
}

abbrev pub value_of {ℓ} : {E : Type 0} {A : Type ℓ} → Result E A → Option A
value_of (ok a) = some a
value_of (err e) = none

-- `s.slice(0, 4) + "…" + s.slice(-4)`
unfoldable pub short_addr : List ℕ → List ℕ
short_addr s = take 4 s ++ (0x2026 ∷ drop (length s - 4) s)

-- A transaction on the latest blockhash, paid by the wallet.
unfoldable pub prepared : World → (owner : List ℕ) → List Instruction → Run Transaction
prepared world owner instructions = do
  blockhash ← ask world.latest_blockhash
  return (record { instructions = instructions; recent_blockhash = blockhash; fee_payer = owner })

unfoldable pub set_pool : (exists_on_chain : Bool) → (lamports : ℕ) → Run (Unit {0})
set_pool exists_on_chain lamports page =
    (ok tt, record page { pool_exists = some exists_on_chain; pool_lamports = some lamports })

unfoldable pub refresh_pool : World → Run (Unit {0})
refresh_pool world = do
  state ← ask (λ t. fetch_pool_state (world.connection t) world.demo_pool)
  set_pool state.exists_on_chain state.lamports

-- For a connected wallet.
unfoldable pub refresh_deposit : World → (owner : List ℕ) → Run (Unit {0})
refresh_deposit world owner = do
  deposit ← ask (λ t.
      fetch_user_deposit (world.connection t)
        (get_user_deposit_pda world.addresses world.programs world.demo_pool owner))
  λ page. (ok tt, record page { user_deposit = some deposit })

-- `Promise.all` of the two, one after the other.
unfoldable pub refresh : World → (owner : List ℕ) → Run (Unit {0})
refresh world owner = do refresh_pool world; refresh_deposit world owner

unfoldable pub create_passkey : World → (owner : List ℕ) → Run PasskeyHandle
create_passkey world owner = ask (λ t. value_of (
    register_passkey (world.navigator t) (world.random_32 t) world.rp_id owner
      (short_addr (world.keys.to_base58 owner))))

-- The registration of a new credential up to its confirmation, with whether that has no error.
unfoldable pub register_credential : World → (owner : List ℕ) → Run Bool
register_credential world owner = do
  cred ← create_passkey world owner
  store_passkey cred
  ix ← ask (λ t.
      build_register_passkey_ix world.addresses world.programs owner (world.connection t)
        cred.pubkey_bytes cred.credential_id)
  tx ← prepared world owner (ix ∷ [])
  sig ← send world tx
  ask (λ t. world.confirm t sig tx.recent_blockhash)

-- The credential that the chain has first is the one used, if it has one.
unfoldable pub restored : Option PasskeyHandle → Run (Unit {0})
restored none = return tt
restored (some handle) = store_passkey handle

-- A registry that is not there is made first, and `announce` says so; from one that is there the
-- credential is restored.
unfoldable pub ensure_registry :
    World → (owner : List ℕ) → (announce : Run (Unit {0})) → Option Account → Run (Unit {0})
ensure_registry world owner announce none = do
  show (pending registering)
  fine ← register_credential world owner
  lift (guard fine registration_failed)
  announce
ensure_registry world owner announce (some account) = do
  on_chain ←
      ask (λ t. fetch_first_passkey world.addresses world.programs (world.connection t) owner)
  restored on_chain

unfoldable pub registry_info : World → (owner : List ℕ) → Run (Option Account)
registry_info world owner =
    ask (λ t.
      (world.connection t).account_info (get_registry_pda world.addresses world.programs owner))

-- A status that is there, confirmed or finalized, and has no error.
abbrev pub is_settled : Option SignatureStatus → Bool
is_settled none = false
is_settled (some status) = status.confirmed_or_finalized && not status.has_error
