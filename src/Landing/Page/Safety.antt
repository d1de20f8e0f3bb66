-- ===== src/Landing/Page/Safety.antt =====
-- handleWithdraw of apps/landing/app/try/page.tsx: what it sends and what it reports.
use mathlib.Core.Path.{subst}
use trana.Prelude.{ℕ, ◌≡◌, refl, sym, ap, ◌∙◌, List, [], ◌∷◌, Option, none, some, Bool, true, false}
use trana.Prelude.{All, All-weaken, any, codes, Bool-cases, inl, inr, if◌then◌else◌, ◌⊎◌}
use trana.Prelude.Result.{ok, err}
use trana.Types.{Instruction, PasskeyHandle}
use trana.React.Logs.{includes}
use trana.Landing.Vault.{get_registry_pda, get_user_deposit_pda, build_withdraw_ix}
use trana.Landing.Page.{World, Page, Transaction, Simulation, Recent, lift, return, show}
use trana.Landing.Page.{
  pending, done, simulating, proving, sending, confirming, registered, simulation_failed,
  registering,
}
use trana.Landing.Page.Guards.{withdraw_guard, is_true}
use trana.Landing.Page.Coverage.{IsCovered, withdraw_guard-IsCovered}
use trana.Landing.Page.Steps.{registry_info}
use trana.Landing.Page.Withdraw.{
  credential, proof_transaction, proof_policy, chosen, recent_signature, is_fresh, settled,
  withdraw_body, handle_withdraw, failure_of,
}
use trana.Landing.Page.Proof.{nonce_of}
use trana.Landing.Page.Sent.{IsProof, proven-Spec}
use trana.Landing.Page.Kept.{
  err_not_ok, is_true-eq, IsHonest, IsSettled, by_recent, by_confirmation, IsRegistration, IsStored,
  initial, rules, prepared-Spec, refresh-Spec, pending-Spec, confirmed_or_status-Spec,
  register_credential-Spec, ensure_registry-Spec,
}
use trana.Landing.Page.Runs.{
  Spec, >>=-Spec, >>-Spec, weaken, lift-Spec, return-Spec, ask-Spec, try_ask-Spec, show-Spec,
  stored_passkey-Spec, try_send-Spec, from_guard,
}
use mathlib.Core.Option.{get_or}

abbrev pub withdrawal : World → (owner : List ℕ) → (lamports : ℕ) → Instruction
withdrawal world owner lamports =
    build_withdraw_ix world.programs world.demo_pool
      (get_user_deposit_pda world.addresses world.programs world.demo_pool owner) owner owner
      (get_registry_pda world.addresses world.programs owner) lamports

-- A transaction of a withdrawal: a registration, the withdrawal alone, or a proof of it.
pub data IsPart (world : World) (owner : List ℕ) (start : Option PasskeyHandle) (lamports : ℕ)
    (tx : Transaction) : Type 0 where
  registration : IsRegistration world owner tx → IsPart world owner start lamports tx
  alone :
      tx.instructions ≡ withdrawal world owner lamports ∷ []
      → tx.fee_payer ≡ owner
      → IsPart world owner start lamports tx
  proof :
      (handle : Option PasskeyHandle)
      → IsStored world owner start handle
      → (policy : List ℕ) → (policy ≡ codes "trana.not_before") ⊎ (policy ≡ codes "trana.limit")
      → IsProof world owner handle (withdrawal world owner lamports) policy tx.instructions
      → tx.fee_payer ≡ owner
      → IsPart world owner start lamports tx

recent_signature-cases :
    (now_ms : ℕ) (recent : Option Recent) (signature : List ℕ)
    → recent_signature now_ms recent ≡ ok signature
    → (r : Recent) × (recent ≡ some r) × (r.signature ≡ signature) × (is_fresh now_ms r ≡ true)
unfolding recent_signature
recent_signature-cases now_ms none signature h = cc
recent_signature-cases now_ms (some r) signature h = elim (Bool-cases (is_fresh now_ms r)) [
  | inl fresh ↦ let same_signature = rw fresh at h in (r, refl, cc, fresh)
  | inr stale ↦ let thrown = rw stale at h in cc
]

proof_policy-cases :
    (logs : List (List ℕ))
    → (proof_policy logs ≡ codes "trana.not_before") ⊎ (proof_policy logs ≡ codes "trana.limit")
proof_policy-cases logs =
    elim (Bool-cases (any (includes (codes "policy=trana.not_before")) logs)) [
      | inl found ↦ inl (rw found refl)
      | inr absent ↦ inr (rw absent refl)
    ]

module _ (world : World) (owner : List ℕ) (start : Option PasskeyHandle) (lamports : ℕ) where
  credential-Spec :
      (stored : Option PasskeyHandle)
      → IsStored world owner start stored
      → Spec
          (IsPart world owner start lamports)
          (rules world owner start)
          (IsStored world owner start)
          (credential world owner stored)
  unfolding credential
  credential-Spec (some handle) is_stored = return-Spec _ _ (some handle) is_stored
  credential-Spec none is_stored = >>-Spec _ _ (pending-Spec _ world owner start registering) (
      >>=-Spec _ _ (register_credential-Spec _ world owner start (λ tx r. registration r))
        λ fine q. stored_passkey-Spec _ _)

  proof_transaction-Spec :
      (policy : List ℕ)
      → (policy ≡ codes "trana.not_before") ⊎ (policy ≡ codes "trana.limit")
      → Spec
          (IsPart world owner start lamports)
          (rules world owner start)
          (IsPart world owner start lamports)
          (proof_transaction world owner (withdrawal world owner lamports) policy)
  unfolding proof_transaction nonce_of
  proof_transaction-Spec policy which = >>-Spec _ _ (pending-Spec _ world owner start proving) (
      >>=-Spec _ _ (stored_passkey-Spec _ _) λ stored q1.
        >>=-Spec _ _ (credential-Spec stored q1) λ handle q2.
          >>=-Spec _ _ (ask-Spec _ _ _) λ nonce q3.
            >>=-Spec _ _
              (proven-Spec _ _ world owner (return tt) handle (withdrawal world owner lamports)
                nonce policy (return-Spec _ _ tt tt))
              λ instructions is_proof.
                weaken _ _
                  (λ tx q.
                    proof handle q2 policy which
                      (subst (IsProof world owner handle (withdrawal world owner lamports) policy)
                        (sym q.0) is_proof)
                      q.1)
                  (prepared-Spec _ world owner start instructions))

  chosen-Spec :
      (plain : Transaction) (sim : Simulation)
      → IsPart world owner start lamports plain
      → Spec
          (IsPart world owner start lamports)
          (rules world owner start)
          (IsPart world owner start lamports)
          (chosen world owner (withdrawal world owner lamports) plain sim)
  unfolding chosen
  chosen-Spec plain sim part =
      elim (Bool-cases (any (includes (codes "MissingProof")) (get_or sim.logs []))) [
        | inl missing ↦ rw missing (
            proof_transaction-Spec (proof_policy (get_or sim.logs []))
              (proof_policy-cases (get_or sim.logs [])))
        | inr fine ↦ rw fine (unproven sim.has_error)
      ]
    where
      unproven :
          (bad : Bool)
          → Spec
              (IsPart world owner start lamports)
              (rules world owner start)
              (IsPart world owner start lamports)
              (if bad then lift (err simulation_failed) else return plain)
      unproven true =
          weaken _ _ (λ tx h. absurd (err_not_ok (err simulation_failed) refl h)) (lift-Spec _ _ _)
      unproven false = return-Spec _ _ plain part

  settled-Spec :
      (tx : Transaction) (answer : Option (List ℕ))
      → Spec
          (IsPart world owner start lamports)
          (rules world owner start)
          (IsSettled world)
          (settled world owner tx answer)
  unfolding settled
  settled-Spec tx none = >>=-Spec _ _ (ask-Spec _ _ _) λ recent q1.
      >>=-Spec _ _ (ask-Spec _ _ _)
        λ now q2. weaken _ _ (λ signature h. backed recent now q1 q2 signature h) (lift-Spec _ _ _)
    where
      backed :
          (recent : Option Recent) (now : ℕ)
          → (t : ℕ) × (world.recent t owner ≡ some recent)
          → (t : ℕ) × (some (world.now_ms t) ≡ some now)
          → (signature : List ℕ) → recent_signature now recent ≡ ok signature
          → IsSettled world signature
      backed recent now (t, at) (u, clock) signature h =
          let (r, e, same_signature, fresh) = recent_signature-cases now recent signature h in
          by_recent t u owner r (at ∙ ap some e) same_signature (cc (clock, fresh))
  settled-Spec tx (some signature) = >>-Spec _ _ (pending-Spec _ world owner start confirming) (
      >>=-Spec _ _ (try_ask-Spec _ _ _) λ fine q.
        confirmed_or_status-Spec _ world owner start signature (failure_of fine) (is_true fine)
          (λ h. by_confirmation q.0 tx.recent_blockhash (q.1 ∙ is_true-eq fine h)))

  withdraw_body-Spec :
      Spec
        (IsPart world owner start lamports)
        (rules world owner start)
        (λ finished. Unit {0})
        (withdraw_body world owner lamports)
  unfolding withdraw_body registry_info
  withdraw_body-Spec = >>-Spec _ _ (pending-Spec _ world owner start simulating) (
      >>=-Spec _ _ (ask-Spec _ _ _) λ info q1.
        >>-Spec _ _
          (ensure_registry-Spec _ world owner start (λ tx r. registration r)
            (show (pending registered)) info (pending-Spec _ world owner start registered))
          (>>=-Spec _ _ (prepared-Spec _ world owner start _) λ plain q2.
            >>=-Spec _ _ (ask-Spec _ _ _) λ sim q3.
              >>=-Spec _ _ (chosen-Spec plain sim (alone q2.0 q2.1)) λ tx part.
                >>-Spec _ _ (pending-Spec _ world owner start sending) (
                  >>=-Spec _ _ (try_send-Spec _ _ world tx part) λ answer q4.
                    >>=-Spec _ _ (settled-Spec tx answer) λ signature backed.
                      >>-Spec _ _ (refresh-Spec _ world owner start)
                        (show-Spec _ _ (done (some signature)) backed))))

-- A transaction of a withdrawal that was covered when it was asked for.
abbrev pub IsCoveredPart : World → Page → (lamports : ℕ) → Transaction → Type 0
IsCoveredPart world page lamports tx =
    (owner : List ℕ) × IsCovered page lamports owner × IsPart world owner page.passkey lamports tx

-- From a page that has sent and shown nothing yet, handleWithdraw sends something only for a positive
-- amount within the deposit, and within the pool where that is known, of a connected wallet. Each
-- transaction registers a credential of that wallet, is the withdrawal alone, or is a proof of it: an
-- answer signed over the hash of an intent for this very withdrawal, checked against the key
-- of the credential that signed, which is the credential that the page has stored, from the start, from the
-- registry or from the browser, or the registry's entry with that id. A success that it shows is backed by a confirmation, a status or a recent
-- signature without an error.
pub handle_withdraw-IsSafe :
    (world : World) (lamports : ℕ) (page : Page)
    → page.sent ≡ []
    → page.shown ≡ []
    → All (IsCoveredPart world page lamports) (handle_withdraw world lamports page).sent
      × All (IsHonest world) (handle_withdraw world lamports page).shown
unfolding handle_withdraw
handle_withdraw-IsSafe world lamports page no_sent no_shown =
    let (sent, shown) =
      from_guard (λ owner. IsPart world owner page.passkey lamports) (IsHonest world)
        (λ owner. IsStored world owner page.passkey) page (withdraw_guard page lamports)
        (λ owner. withdraw_body world owner lamports) (λ e. tt) (λ owner. initial)
        (λ owner. withdraw_body-Spec world owner page.passkey lamports) no_sent no_shown in
    (
      All-weaken _
          (λ tx (owner, passed, part).
            (owner, withdraw_guard-IsCovered page lamports owner passed, part))
          sent,
      shown,
    )
