-- ===== src/Landing/Page/Upgrades.antt =====
-- handleUpgradePasskey and handleAddPasskey of apps/landing/app/try/page.tsx: what they send and report.
use mathlib.Core.Path.{subst}
use trana.Prelude.{ℕ, ◌≡◌, refl, sym, ap, ◌∙◌, List, [], Option, none, some}
use trana.Prelude.{All, codes}
use trana.Prelude.Result.{ok, err, or_throw-eq-ok}
use trana.Types.{Instruction, PasskeyHandle}
use trana.React.Logs.{trim}
use trana.Landing.Page.{bad_program_id, bad_buffer, no_credential}
use trana.Landing.Vault.{build_add_passkey_ix}
use trana.Landing.Page.{World, Page, Transaction, return, show}
use trana.Landing.Page.{
  pending, done, reading, approving, sending, creating, checking, thrown, transaction_failed,
}
use trana.Landing.Page.Guards.{is_true}
use trana.Landing.Page.Steps.{registry_info, create_passkey}
use trana.Landing.Page.Proof.{nonce_of}
use trana.Landing.Page.Manage.{
  Loader, upgraded, upgrade_passkey_body, handle_upgrade_passkey, add_passkey_body,
  handle_add_passkey, connected,
}
use trana.Landing.Page.Withdraw.{failure_of}
use trana.Landing.Page.Sent.{IsProof, proven-Spec}
use trana.Landing.Page.Kept.{
  err_not_ok, IsHonest, IsSettled, by_confirmation, IsRegistration, IsCreated, IsStored,
  IsProgramData, initial, on_chain, created, rules, prepared-Spec, program_data-Spec, pending-Spec,
  confirmed_or_status-Spec, ensure_registry-Spec, refresh_deposit-Spec, guard_true, is_true-eq,
}
use trana.Landing.Page.Runs.{
  Spec, after, from_guard, >>=-Spec, >>-Spec, weaken, lift-Spec, return-Spec, ask-Spec,
  try_ask-Spec, show-Spec, store_passkey-Spec, stored_passkey-Spec, try_send-Spec, send-Spec,
}

-- A proof, by the stored credential, of the upgrade of the typed program from the typed buffer, paid by the
-- owner.
pub record IsProvenUpgrade (world : World) (loader : Loader) (owner : List ℕ)
    (start : Option PasskeyHandle) (target_text buffer_text : List ℕ) (tx : Transaction)
    : Type 0 where
  pub target : List ℕ
  pub program_data : List ℕ
  pub buffer : List ℕ
  pub handle : PasskeyHandle
  pub typed_target : world.keys.of_base58 target_text ≡ some target
  pub typed_buffer : world.keys.of_base58 (trim buffer_text) ≡ some buffer
  pub found : IsProgramData world target program_data
  pub stored : IsStored world owner start (some handle)
  pub proved :
      IsProof world owner
        (some handle)
        (loader.execute_upgrade_ix owner target program_data buffer owner)
        (codes "trana.require")
        tx.instructions
  pub paid : tx.fee_payer ≡ owner

-- A transaction of an upgrade: a registration, or a proven upgrade.
pub data IsUpgrade (world : World) (loader : Loader) (owner : List ℕ) (start : Option PasskeyHandle)
    (target_text buffer_text : List ℕ) (tx : Transaction) : Type 0 where
  registration :
      IsRegistration world owner tx → IsUpgrade world loader owner start target_text buffer_text tx
  proof :
      IsProvenUpgrade world loader owner start target_text buffer_text tx
      → IsUpgrade world loader owner start target_text buffer_text tx

-- A transaction that adds a passkey: a proof, with no credential asked for, of an instruction built for a
-- credential that the browser made for the owner.
pub record IsAddition (world : World) (owner : List ℕ) (tx : Transaction) : Type 0 where
  pub handle : PasskeyHandle
  pub was_created : IsCreated world owner handle
  pub at : ℕ
  pub ix : Instruction
  pub built :
      build_add_passkey_ix world.addresses world.programs owner
        (world.connection at)
        handle.pubkey_bytes
        handle.credential_id
      ≡ some ix
  pub proved : IsProof world owner none ix (codes "trana.require") tx.instructions
  pub paid : tx.fee_payer ≡ owner

module _ (world : World) (loader : Loader) (owner : List ℕ) (start : Option PasskeyHandle)
    (target_text buffer_text : List ℕ) where
  upgraded-Spec :
      (tx : Transaction) (answer : Option (List ℕ))
      → Spec
          (IsUpgrade world loader owner start target_text buffer_text)
          (rules world owner start)
          (IsSettled world)
          (upgraded world tx answer)
  unfolding upgraded
  upgraded-Spec tx none =
      weaken _ _ (λ a h. absurd (err_not_ok (err thrown) refl h)) (lift-Spec _ _ _)
  upgraded-Spec tx (some signature) = >>=-Spec _ _ (try_ask-Spec _ _ _) λ fine q.
      confirmed_or_status-Spec _ world owner start signature (failure_of fine) (is_true fine)
        (λ h. by_confirmation q.0 tx.recent_blockhash (q.1 ∙ is_true-eq fine h))

  upgrade_passkey_body-Spec :
      Spec
        (IsUpgrade world loader owner start target_text buffer_text)
        (rules world owner start)
        (λ finished. Unit {0})
        (upgrade_passkey_body world loader target_text buffer_text owner)
  unfolding upgrade_passkey_body registry_info nonce_of
  upgrade_passkey_body-Spec = >>-Spec _ _ (lift-Spec _ _ _) (
      >>=-Spec _ _ (lift-Spec _ _ _) λ target q1. >>=-Spec _ _ (lift-Spec _ _ _) λ buffer q2.
        >>-Spec _ _ (pending-Spec _ world owner start reading) (
          >>=-Spec _ _ (program_data-Spec _ world owner start target) λ address q3.
            >>=-Spec _ _ (ask-Spec _ _ _) λ info q4.
              >>-Spec _ _
                (ensure_registry-Spec _ world owner start (λ tx r. registration r) (return tt) info
                  (return-Spec _ _ tt tt))
                (>>=-Spec _ _ (stored_passkey-Spec _ _) λ stored q5.
                  >>=-Spec _ _ (lift-Spec _ _ _) λ handle q6.
                    >>=-Spec _ _ (ask-Spec _ _ _) λ nonce q7.
                      >>=-Spec _ _
                        (proven-Spec _ _ world owner (show (pending approving)) (some handle)
                          (loader.execute_upgrade_ix owner target address buffer owner) nonce
                          (codes "trana.require") (pending-Spec _ world owner start approving))
                        λ instructions is_proof.
                          >>=-Spec _ _ (prepared-Spec _ world owner start instructions) λ tx q8.
                            >>-Spec _ _ (pending-Spec _ world owner start sending) (
                              >>=-Spec _ _
                                (try_send-Spec _ _ world tx (
                                  proof (record {
                                    target = target;
                                    program_data = address;
                                    buffer = buffer;
                                    handle = handle;
                                    typed_target = or_throw-eq-ok _ bad_program_id q1;
                                    typed_buffer = or_throw-eq-ok _ bad_buffer q2;
                                    found = q3;
                                    stored =
                                        subst (IsStored world owner start)
                                          (or_throw-eq-ok stored no_credential q6) q5;
                                    proved =
                                        moved target address buffer handle tx instructions
                                          (sym q8.0) is_proof;
                                    paid = q8.1;
                                  })))
                                λ answer q9.
                                  >>=-Spec _ _ (upgraded-Spec tx answer) λ signature backed.
                                    show-Spec _ _ (done (some signature)) backed))))
    where
      moved :
          (target address buffer : List ℕ) (handle : PasskeyHandle) (tx : Transaction)
          (instructions : List Instruction)
          → instructions ≡ tx.instructions
          → IsProof world owner
              (some handle)
              (loader.execute_upgrade_ix owner target address buffer owner)
              (codes "trana.require")
              instructions
          → IsProof world owner
              (some handle)
              (loader.execute_upgrade_ix owner target address buffer owner)
              (codes "trana.require")
              tx.instructions
      moved target address buffer handle tx instructions e p =
          subst
            (IsProof world owner (some handle)
              (loader.execute_upgrade_ix owner target address buffer owner) (codes "trana.require"))
            e p

module _ (world : World) (owner : List ℕ) (start : Option PasskeyHandle) where
  add_passkey_body-Spec :
      Spec
        (IsAddition world owner)
        (rules world owner start)
        (λ finished. Unit {0})
        (add_passkey_body world owner)
  unfolding add_passkey_body create_passkey nonce_of
  add_passkey_body-Spec = >>-Spec _ _ (pending-Spec _ world owner start checking) (
      >>=-Spec _ _ (ask-Spec _ _ _) λ found q1. >>=-Spec _ _ (lift-Spec _ _ _) λ existing q2.
        >>-Spec _ _
          (store_passkey-Spec _ _ existing
            (on_chain existing (q1.0, q1.1 ∙ ap some (or_throw-eq-ok found no_credential q2))))
          (>>-Spec _ _ (pending-Spec _ world owner start creating) (
            >>=-Spec _ _ (ask-Spec _ _ _) λ new_cred q3.
              >>-Spec _ _ (pending-Spec _ world owner start approving) (
                >>=-Spec _ _ (ask-Spec _ _ _) λ nonce q4. >>=-Spec _ _ (ask-Spec _ _ _) λ ix q5.
                  >>=-Spec _ _
                    (proven-Spec _ _ world owner (return tt) none ix nonce (codes "trana.require")
                      (return-Spec _ _ tt tt))
                    λ instructions is_proof.
                      >>=-Spec _ _ (prepared-Spec _ world owner start instructions) λ tx q6.
                        >>-Spec _ _ (pending-Spec _ world owner start sending) (
                          >>=-Spec _ _
                            (send-Spec _ _ world tx (record {
                              handle = new_cred;
                              was_created = q3;
                              at = q5.0;
                              ix = ix;
                              built = q5.1;
                              proved =
                                  subst (IsProof world owner none ix (codes "trana.require"))
                                    (sym q6.0) is_proof;
                              paid = q6.1;
                            }))
                            λ signature q7. >>=-Spec _ _ (ask-Spec _ _ _) λ fine q8.
                              after _ _ (lift-Spec _ _ _) λ passed q9.
                                >>-Spec _ _ (store_passkey-Spec _ _ new_cred (created new_cred q3))
                                  (>>-Spec _ _ (refresh_deposit-Spec _ world owner start) (
                                    show-Spec _ _ (done (some signature)) (
                                      by_confirmation q8.0 tx.recent_blockhash (
                                        q8.1
                                        ∙ ap some (guard_true fine transaction_failed q9))))))))))

-- From a page that has sent and shown nothing yet, handleUpgradePasskey sends only registrations of a
-- credential that the browser made for the connected wallet, and upgrades of the typed program, whose
-- data account its own account names, from the typed buffer, with a proof under trana.require signed over
-- that very upgrade and checked against the stored or registered key of the credential that signed; and a
-- success that it shows is backed.
pub handle_upgrade_passkey-IsProven :
    (world : World) (loader : Loader) (target_text buffer_text : List ℕ) (page : Page)
    → page.sent ≡ []
    → page.shown ≡ []
    → let after_page = handle_upgrade_passkey world loader target_text buffer_text page in
      All
        (λ tx.
          (owner : List ℕ) × (connected page ≡ ok owner)
          × IsUpgrade world loader owner page.passkey target_text buffer_text tx)
        after_page.sent
      × All (IsHonest world) after_page.shown
unfolding handle_upgrade_passkey
handle_upgrade_passkey-IsProven world loader target_text buffer_text page no_sent no_shown =
    from_guard (λ owner. IsUpgrade world loader owner page.passkey target_text buffer_text)
      (IsHonest world) (λ owner. IsStored world owner page.passkey) page (connected page)
      (upgrade_passkey_body world loader target_text buffer_text) (λ e. tt) (λ owner. initial)
      (λ owner. upgrade_passkey_body-Spec world loader owner page.passkey target_text buffer_text)
      no_sent no_shown

-- From a page that has sent and shown nothing yet, handleAddPasskey sends only proofs, under
-- trana.require and checked against the registered key of the credential that signed, of an instruction
-- that adds a credential which the browser made for the connected wallet; and a success that it shows is
-- backed.
pub handle_add_passkey-IsProven :
    (world : World) (page : Page)
    → page.sent ≡ []
    → page.shown ≡ []
    → All
        (λ tx. (owner : List ℕ) × (connected page ≡ ok owner) × IsAddition world owner tx)
        (handle_add_passkey world page).sent
      × All (IsHonest world) (handle_add_passkey world page).shown
unfolding handle_add_passkey
handle_add_passkey-IsProven world page no_sent no_shown =
    from_guard (IsAddition world) (IsHonest world) (λ owner. IsStored world owner page.passkey) page
      (connected page) (add_passkey_body world) (λ e. tt) (λ owner. initial)
      (λ owner. add_passkey_body-Spec world owner page.passkey) no_sent no_shown
