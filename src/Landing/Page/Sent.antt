-- ===== src/Landing/Page/Sent.antt =====
-- What the handlers of apps/landing/app/try/page.tsx may send and report.
use trana.Prelude.{ℕ, ◌≡◌, refl, sym, List, [], ◌∷◌, Option, none, some}
use trana.Prelude.{Bool-cases, inl, inr, ◌⊎◌}
use trana.Prelude.Equality.{same, eq_of_same}
use trana.Prelude.Result.{Result, ok, err, or_throw, or_throw-eq-ok}
use trana.Types.{Instruction, PasskeyHandle}
use trana.Intent.{hash_intent}
use trana.Secp256r1.{build_secp256r1_ix, build_webauthn_message, build_record_proof_ix}
use trana.Webauthn.{SigningResult, sign_intent}
use trana.Landing.Page.{World, Transaction, Run, thrown, not_registered}
use trana.Landing.Page.Steps.{value_of}
use trana.Landing.Page.Proof.{
  find_handle, registered_handle, signing_handle, intent_for, credential_of, proven,
}
use trana.Landing.Registry.{fetch_all_passkeys}
use trana.Landing.Page.Runs.{
  Rules, Spec, >>=-Spec, >>-Spec, weaken, lift-Spec, return-Spec, ask-Spec,
}

-- The entry of the owner's registry with this credential id.
abbrev pub IsRegistered : World → (owner : List ℕ) → (id : List ℕ) → PasskeyHandle → Type 0
IsRegistered world owner id e =
    (t : ℕ) × (all : List PasskeyHandle) × (fetch_all_passkeys world.addresses world.programs
        (world.connection t) owner
      ≡ some all)
    × (find_handle id all ≡ some e)

-- The stored credential or the registry's entry, and it has the id of the credential that signed.
abbrev pub IsSigner :
    World → (owner : List ℕ) → Option PasskeyHandle → SigningResult → PasskeyHandle → Type 0
IsSigner world owner handle signed signer =
    ((handle ≡ some signer) ⊎ IsRegistered world owner signed.credential_id signer)
    × (signer.credential_id ≡ signed.credential_id)

-- The three instructions of a proof of `ix` for the owner under a policy, with the stored credential: the
-- hash of one intent for `ix` was signed, by that credential where there is one to ask for; the key in
-- the first instruction is the stored or the registered key of the credential that signed, and the
-- second carries the same answer with the expiry of that intent.
pub record IsProof (world : World) (owner : List ℕ) (handle : Option PasskeyHandle)
    (ix : Instruction) (policy : List ℕ) (instructions : List Instruction) : Type 0 where
  pub nonce : ℕ
  pub now : ℕ
  pub challenge : List ℕ
  pub signed_at : ℕ
  pub signed : SigningResult
  pub signer : PasskeyHandle
  pub secp256r1_ix : Instruction
  pub hashed : hash_intent world.keys (intent_for world owner ix nonce policy now) ≡ some challenge
  pub was_signed :
      sign_intent (world.navigator signed_at) challenge (credential_of handle) world.rp_id
      ≡ ok signed
  pub is_signer : IsSigner world owner handle signed signer
  pub built :
      build_secp256r1_ix world.memory world.programs.ids signer.pubkey_bytes signed.signature
        (build_webauthn_message signed.authenticator_data signed.client_data_json)
      ≡ some secp256r1_ix
  pub whole :
      instructions
      ≡ secp256r1_ix
        ∷ build_record_proof_ix world.programs.ids world.programs.guard_program
            signed.authenticator_data signed.client_data_json
            (intent_for world owner ix nonce policy now).expiry_unix
            policy
        ∷ ix
        ∷ []

value_of-eq : {E A : Type 0} (r : Result E A) (a : A) → value_of r ≡ some a → r ≡ ok a
value_of-eq (ok b) a h = cc
value_of-eq (err e) a h = cc

find_handle-id :
    (id : List ℕ) (all : List PasskeyHandle) (e : PasskeyHandle)
    → find_handle id all ≡ some e
    → e.credential_id ≡ id
unfolding find_handle
find_handle-id id [] e h = cc
find_handle-id id (k ∷ all) e h = elim (Bool-cases (same k.credential_id id)) [
  | inl found ↦ let i = rw found at h in cc (eq_of_same k.credential_id id found)
  | inr other ↦ find_handle-id id all e (rw other at h)
]

module _ (S : Transaction → Type 0) (R : Rules) (world : World) (owner : List ℕ) where
  registered_handle-Spec :
      (id : List ℕ) → Spec S R (IsRegistered world owner id) (registered_handle world owner id)
  unfolding registered_handle
  registered_handle-Spec id = >>=-Spec S R (ask-Spec S R _) λ all q.
      weaken S R (λ e h. (q.0, all, q.1, or_throw-eq-ok (find_handle id all) not_registered h))
        (lift-Spec S R (or_throw (find_handle id all) not_registered))

  of_registered :
      (handle : Option PasskeyHandle) (signing : SigningResult) (e : PasskeyHandle)
      → IsRegistered world owner signing.credential_id e
      → IsSigner world owner handle signing e
  of_registered handle signing e q = (inr q, find_handle-id signing.credential_id q.1 e q.3)

  signing_handle-Spec :
      (handle : Option PasskeyHandle) (signing : SigningResult)
      → Spec S R (IsSigner world owner handle signing) (signing_handle world owner handle signing)
  unfolding signing_handle
  signing_handle-Spec none signing =
      weaken S R (λ e q. of_registered none signing e q)
        (registered_handle-Spec signing.credential_id)
  signing_handle-Spec (some handle) signing =
      elim (Bool-cases (same signing.credential_id handle.credential_id)) [
        | inl it ↦ rw it (
            return-Spec S R handle
              (inl refl, sym (eq_of_same signing.credential_id handle.credential_id it)))
        | inr other ↦ rw other (
            weaken S R (λ e q. of_registered (some handle) signing e q)
              (registered_handle-Spec signing.credential_id))
      ]

  pub proven-Spec :
      (announce : Run (Unit {0})) (handle : Option PasskeyHandle) (ix : Instruction) (nonce : ℕ)
      (policy : List ℕ)
      → Spec S R (λ finished. Unit {0}) announce
      → Spec S R
          (IsProof world owner handle ix policy)
          (proven world owner announce handle ix nonce policy)
  unfolding proven
  proven-Spec announce handle ix nonce policy announced = >>=-Spec S R (ask-Spec S R _) λ now q1.
      >>=-Spec S R (lift-Spec S R _) λ challenge hashed. >>-Spec S R announced (
        >>=-Spec S R (ask-Spec S R _) λ signing q2.
          >>=-Spec S R (signing_handle-Spec handle signing) λ signer same_id.
            >>=-Spec S R (lift-Spec S R _) λ secp built. return-Spec S R _ (record {
              nonce = nonce;
              now = now;
              challenge = challenge;
              signed_at = q2.0;
              signed = signing;
              signer = signer;
              secp256r1_ix = secp;
              hashed = or_throw-eq-ok _ thrown hashed;
              was_signed = value_of-eq _ signing q2.1;
              is_signer = same_id;
              built = or_throw-eq-ok _ thrown built;
              whole = refl;
            }))
