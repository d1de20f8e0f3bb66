-- ===== src/Landing/Page/Withdraw.antt =====
-- handleWithdraw and handleDeposit of apps/landing/app/try/page.tsx. The amount is the lamports of the
-- text field, 0 for one that is not positive.
use trana.Prelude.{ℕ, ◌+◌, ◌*◌, List, [], ◌∷◌, Option, none, some, Bool, true, false, ltb}
use trana.Prelude.{◌&&◌, not, any, codes, if◌then◌else◌}
use trana.Prelude.Result.{Result, ok, err}
use trana.Types.{Instruction, PasskeyHandle}
use trana.React.Logs.{includes}
use trana.Landing.Vault.{
  get_registry_pda, get_user_deposit_pda, build_withdraw_ix, build_deposit_ix,
}
use trana.Landing.Page.{
  World, Page, Transaction, Simulation, Recent, Failure, Run, ◌>>=◌, ◌>>◌, lift, return, ask,
  try_ask, show, stored_passkey, send, try_send,
}
use trana.Landing.Page.{
  pending, done, registered, simulating, registering, proving, sending, confirming,
  simulation_failed, transaction_failed, thrown,
}
use trana.Landing.Page.Steps.{
  prepared, refresh, refresh_pool, ensure_registry, registry_info, register_credential, is_settled,
}
use trana.Landing.Page.Guards.{is_true, withdraw_guard, deposit_guard, guarded}
use trana.Landing.Page.Proof.{nonce_of, proven}
use mathlib.Core.Option.{get_or}

abbrev pub proof_policy : (logs : List (List ℕ)) → List ℕ
proof_policy logs =
    if any (includes (codes "policy=trana.not_before")) logs
    then codes "trana.not_before"
    else codes "trana.limit"

-- The stored credential, or one that is registered now, without a look at how that ended.
unfoldable pub credential :
    World → (owner : List ℕ) → Option PasskeyHandle → Run (Option PasskeyHandle)
credential world owner (some handle) = return (some handle)
credential world owner none = do
  show (pending registering)
  fine ← register_credential world owner
  stored_passkey

unfoldable pub proof_transaction :
    World → (owner : List ℕ) → Instruction → (policy : List ℕ) → Run Transaction
proof_transaction world owner ix policy = do
  show (pending proving)
  stored ← stored_passkey
  handle ← credential world owner stored
  nonce ← nonce_of world owner
  instructions ← proven world owner (return tt) handle ix nonce policy
  prepared world owner instructions

-- What is sent: the plain transaction, or the proven one where the simulation misses a proof.
unfoldable pub chosen :
    World → (owner : List ℕ) → Instruction → (plain : Transaction) → Simulation → Run Transaction
chosen world owner ix plain sim =
    if any (includes (codes "MissingProof")) (get_or sim.logs [])
    then proof_transaction world owner ix (proof_policy (get_or sim.logs []))
    else if sim.has_error
    then lift (err simulation_failed)
    else return plain

-- `Date.now() / 1000 - (blockTime ?? 0) < 20`, in milliseconds.
abbrev pub is_fresh : (now_ms : ℕ) → Recent → Bool
is_fresh now_ms r = not r.has_error && ltb now_ms ((get_or r.block_time 0 + 20) * 1000)

unfoldable pub recent_signature : (now_ms : ℕ) → Option Recent → Result Failure (List ℕ)
recent_signature now_ms none = err thrown
recent_signature now_ms (some r) = if is_fresh now_ms r then ok r.signature else err thrown

-- The error of a confirmation that failed or threw.
abbrev pub failure_of : Option Bool → Failure
failure_of none = thrown
failure_of (some fine) = transaction_failed

-- What an answer of `confirmTransaction` that is not a success comes to: the status decides.
unfoldable pub confirmed_or_status :
    World → (signature : List ℕ) → (otherwise : Failure) → (fine : Bool) → Run (List ℕ)
confirmed_or_status world signature otherwise true = return signature
confirmed_or_status world signature otherwise false = do
  status ← ask (λ t. world.status t signature)
  if is_settled status then return signature else lift (err otherwise)

-- After the wallet's answer: without a signature the latest one of the address decides.
unfoldable pub settled : World → (owner : List ℕ) → Transaction → Option (List ℕ) → Run (List ℕ)
settled world owner tx none = do
  recent ← ask (λ t. world.recent t owner)
  now_ms ← ask (λ t. some (world.now_ms t))
  lift (recent_signature now_ms recent)
settled world owner tx (some signature) = do
  show (pending confirming)
  fine ← try_ask (λ t. world.confirm t signature tx.recent_blockhash)
  confirmed_or_status world signature (failure_of fine) (is_true fine)

unfoldable pub withdraw_body : World → (owner : List ℕ) → (lamports : ℕ) → Run (Unit {0})
withdraw_body world owner lamports =
    let registry = get_registry_pda world.addresses world.programs owner in
    let deposit = get_user_deposit_pda world.addresses world.programs world.demo_pool owner in
    let ix =
      build_withdraw_ix world.programs world.demo_pool deposit owner owner registry lamports in
    do
      show (pending simulating)
      info ← registry_info world owner
      ensure_registry world owner (show (pending registered)) info
      plain ← prepared world owner (ix ∷ [])
      sim ← ask (λ t. world.simulate t plain)
      tx ← chosen world owner ix plain sim
      show (pending sending)
      answer ← try_send world tx
      signature ← settled world owner tx answer
      refresh world owner
      show (done (some signature))

unfoldable pub handle_withdraw : World → (lamports : ℕ) → Page → Page
handle_withdraw world lamports page =
    guarded page (withdraw_guard page lamports) (λ owner. withdraw_body world owner lamports)

-- The result of the confirmation is not looked at.
unfoldable pub deposit_body : World → (owner : List ℕ) → (lamports : ℕ) → Run (Unit {0})
deposit_body world owner lamports =
    let deposit = get_user_deposit_pda world.addresses world.programs world.demo_pool owner in
    let ix = build_deposit_ix world.programs world.demo_pool deposit owner lamports in
    do
      show (pending sending)
      tx ← prepared world owner (ix ∷ [])
      signature ← send world tx
      fine ← ask (λ t. world.confirm t signature tx.recent_blockhash)
      refresh_pool world
      show (done (some signature))

unfoldable pub handle_deposit : World → (lamports : ℕ) → Page → Page
handle_deposit world lamports page =
    guarded page (deposit_guard page lamports) (λ owner. deposit_body world owner lamports)
