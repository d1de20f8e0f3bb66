-- ===== src/Guard/Proof.antt =====
-- buildProof of packages/sdk/src/guard/client.ts: what a successful call went through.
use trana.Prelude.{ℕ, ◌+◌, ◌/◌, ◌^◌, ◌<◌, ◌≡◌, refl, sym, ap, ◌∙◌, arith, List, [], ◌∷◌, ◌++◌}
use trana.Prelude.{Option, some, length, length-append, Bool-cases, inl, inr, All}
use trana.Prelude.Equality.{same, eq_of_same}
use trana.Prelude.Result.{ok}
use trana.Bytes.Utf8.{utf8}
use trana.Sha256.{sha256_bytes}
use trana.Sha256.Shape.{sha256_bytes_shape}
use trana.Types.{Policy, require, not_before, not_after, limit, policy_id}
use trana.Intent.{hash_intent, build_intent, intent_from_instruction}
use trana.Secp256r1.{
  record_proof_disc, build_secp256r1_ix, build_record_proof_ix, build_webauthn_message,
}
use trana.Secp256r1.Layout.{read_verify, precompile_reads_back, build_webauthn_message_lem}
use trana.Secp256r1.RecordProof.{read_proof, read_proof-build_record_proof_ix}
use trana.Webauthn.{Navigator, allowed, SigningResult, sign_intent, GetOptions, Assertion, answer}
use trana.Webauthn.Ceremony.{length-sign_intent}
use mathlib.Core.Path.{subst}
use mathlib.Core.Option.{get_or}
use trana.Guard.{Host, Client, Registry, PasskeyEntry, ProofArgs, BuildProofResult}
use trana.Guard.{
  nonce_or_fetch, registry_pda, fetch_registry, find_entry, proof_intent, build_proof,
}

find_entry-id :
    (id : List ℕ) (keys : List PasskeyEntry) (entry : PasskeyEntry)
    → find_entry id keys ≡ some entry
    → entry.credential_id ≡ id
unfolding find_entry
find_entry-id id [] entry h = cc
find_entry-id id (k ∷ keys) entry h = elim (Bool-cases (same k.credential_id id)) [
  | inl found ↦ let e = rw found at h in cc (eq_of_same k.credential_id id found)
  | inr other ↦ find_entry-id id keys entry (rw other at h)
]

find_entry-All :
    (P : PasskeyEntry → Type 0) (id : List ℕ) (keys : List PasskeyEntry) (entry : PasskeyEntry)
    → All P keys
    → find_entry id keys ≡ some entry
    → P entry
unfolding find_entry
find_entry-All P id [] entry all h = cc
find_entry-All P id (k ∷ keys) entry (p, ps) h = elim (Bool-cases (same k.credential_id id)) [
  | inl found ↦ let e : k ≡ entry = ground arith in subst P e p
  | inr other ↦ find_entry-All P id keys entry ps (rw other at h)
]

-- What `buildProof` went through when it succeeded.
pub record Run (host : Host) (client : Client) (args : ProofArgs) (out : BuildProofResult)
    : Type 0 where
  pub nonce : ℕ
  pub registry : Registry
  pub challenge : List ℕ
  pub signed : SigningResult
  pub entry : PasskeyEntry
  pub nonce_read : nonce_or_fetch host client args.owner args.nonce ≡ ok nonce
  pub registry_read : fetch_registry host client args.owner ≡ some registry
  pub hashed : hash_intent host.keys (proof_intent host client args nonce) ≡ some challenge
  pub was_signed :
      sign_intent host.navigator challenge (some args.credential_id) args.rp_id ≡ ok signed
  pub was_found : find_entry args.credential_id registry.keys ≡ some entry
  pub built :
      build_secp256r1_ix host.memory host.ids entry.pubkey_bytes signed.signature
        (build_webauthn_message signed.authenticator_data signed.client_data_json)
      ≡ some out.secp256r1_ix
  pub carried :
      out.record_proof_ix
      ≡ build_record_proof_ix host.ids client.program_id signed.authenticator_data
          signed.client_data_json
          (proof_intent host client args nonce).expiry_unix
          (proof_intent host client args nonce).policy_id

pub build_proof-Run :
    (host : Host) (client : Client) (args : ProofArgs) (out : BuildProofResult)
    → build_proof host client args ≡ ok out
    → Run host client args out
unfolding build_proof
build_proof-Run host client args out h = ground arith

-- What the chain and the browser are relied on for: registered keys are 33 bytes, and the bytes of an
-- answer fit the two-byte length of the precompile and the four-byte lengths of Borsh.
pub record IsSane (host : Host) : Type 0 where
  pub keys_33 :
      (pda : List ℕ) (registry : Registry)
      → host.fetch_registry pda ≡ some registry
      → All (λ k. length k.pubkey_bytes ≡ 33) registry.keys
  pub short_answers :
      (options : GetOptions) (a : Assertion)
      → host.navigator.get options ≡ answer a
      → (length a.authenticator_data + 32 < 65536) × (length a.client_data_json < 2 ^ 32)

length-policy_id : (p : Policy) → length (utf8 (policy_id p)) < 2 ^ 32
unfolding policy_id utf8
length-policy_id require = omega arith
length-policy_id (not_before slot) = omega arith
length-policy_id (not_after slot) = omega arith
length-policy_id (limit offset amount) = omega arith

policy_of_intent :
    (host : Host) (client : Client) (args : ProofArgs) (nonce : ℕ)
    → (proof_intent host client args nonce).policy_id ≡ policy_id args.policy
unfolding build_intent intent_from_instruction
policy_of_intent host client args nonce = refl

expiry_of_intent :
    (host : Host) (client : Client) (args : ProofArgs) (nonce : ℕ)
    → (proof_intent host client args nonce).expiry_unix
      ≡ host.now_ms / 1000 + get_or args.expiry_ttl_sec 120
unfolding build_intent
expiry_of_intent host client args nonce = refl

registry_of :
    (host : Host) (client : Client) (owner : List ℕ) {registry : Registry}
    → fetch_registry host client owner ≡ some registry
    → host.fetch_registry (registry_pda host client owner) ≡ some registry
unfolding fetch_registry
registry_of host client owner h = h

-- What the authenticator answered when signing succeeded.
answer_of :
    (nav : Navigator) (challenge rp_id : List ℕ) (id : Option (List ℕ)) (out : SigningResult)
    → sign_intent nav challenge id rp_id ≡ ok out
    → (a : Assertion) × (nav.get
          (record { challenge = challenge; rp_id = rp_id; allow_credentials = allowed id })
        ≡ answer a)
      × (out.authenticator_data ≡ a.authenticator_data)
      × (out.client_data_json ≡ a.client_data_json)
unfolding sign_intent
answer_of nav challenge rp_id id out h = ground arith

-- A proof whose two instructions belong to one run: both readers' views of them, in terms of the run.
pub record IsConsistent (host : Host) (client : Client) (args : ProofArgs) (out : BuildProofResult)
    : Type 0 where
  pub run : Run host client args out
  pub key_of_credential : run.entry.credential_id ≡ args.credential_id
  pub verified :
      read_verify out.secp256r1_ix.payload
      ≡ some (record {
        signature = run.signed.signature;
        public_key = run.entry.pubkey_bytes;
        message = run.signed.authenticator_data ++ sha256_bytes run.signed.client_data_json;
      })
  pub proved :
      read_proof out.record_proof_ix.payload
      ≡ some (record {
        discriminator = record_proof_disc;
        version = 1;
        expiry = (proof_intent host client args run.nonce).expiry_unix;
        policy = utf8 (proof_intent host client args run.nonce).policy_id;
        authenticator_data = run.signed.authenticator_data;
        client_data_json = run.signed.client_data_json;
      })

module _ (host : Host) (client : Client) (args : ProofArgs) (out : BuildProofResult) where
  module _ (sane : IsSane host) (run : Run host client args out) where
    answered_short :
        (length run.signed.authenticator_data + 32 < 65536)
        × (length run.signed.client_data_json < 2 ^ 32)
    answered_short =
        let (a, got, same_auth, same_client) =
          answer_of host.navigator run.challenge args.rp_id (some args.credential_id) run.signed
            run.was_signed in
        let short = sane.short_answers _ a got in
        omega (arith, ap length same_auth, ap length same_client)

    run-verified :
        read_verify out.secp256r1_ix.payload
        ≡ some (record {
          signature = run.signed.signature;
          public_key = run.entry.pubkey_bytes;
          message = run.signed.authenticator_data ++ sha256_bytes run.signed.client_data_json;
        })
    run-verified =
        let message =
          build_webauthn_message run.signed.authenticator_data run.signed.client_data_json in
        let form =
          build_webauthn_message_lem run.signed.authenticator_data run.signed.client_data_json in
        let digest_32 = (sha256_bytes_shape run.signed.client_data_json).0 in
        let (ix, built, _, _, reads) =
          precompile_reads_back host.memory host.ids run.entry.pubkey_bytes run.signed.signature
            message
            (find_entry-All (λ k. length k.pubkey_bytes ≡ 33) args.credential_id run.registry.keys
              run.entry
              (sane.keys_33 _ run.registry (registry_of host client args.owner run.registry_read))
              run.was_found)
            (length-sign_intent host.navigator run.challenge args.rp_id (some args.credential_id)
              run.signed run.was_signed)
            (omega (
              arith,
              answered_short,
              digest_32,
              ap length form,
              length-append run.signed.authenticator_data
                  (sha256_bytes run.signed.client_data_json),
            )) in
        let same_ix : ix ≡ out.secp256r1_ix = cc (built, run.built) in
        ap (λ i. read_verify i.payload) (sym same_ix)
        ∙ reads
        ∙ ap
            (λ m. some (record {
              signature = run.signed.signature;
              public_key = run.entry.pubkey_bytes;
              message = m;
            }))
            form

    run-proved :
        (proof_intent host client args run.nonce).expiry_unix < 2 ^ 64
        → read_proof out.record_proof_ix.payload
          ≡ some (record {
            discriminator = record_proof_disc;
            version = 1;
            expiry = (proof_intent host client args run.nonce).expiry_unix;
            policy = utf8 (proof_intent host client args run.nonce).policy_id;
            authenticator_data = run.signed.authenticator_data;
            client_data_json = run.signed.client_data_json;
          })
    run-proved soon = rw run.carried (
        read_proof-build_record_proof_ix host.ids client.program_id run.signed.authenticator_data
          run.signed.client_data_json (proof_intent host client args run.nonce).expiry_unix
          (proof_intent host client args run.nonce).policy_id soon
          (rw (policy_of_intent host client args run.nonce) (length-policy_id args.policy))
          (omega (arith, answered_short)) answered_short.1)

-- Every proof that `buildProof` returns is consistent, for an expiry below 2 ^ 64, registered keys of 33
-- bytes and answers of the browser that fit the length fields: the precompile's reader gets the
-- normalised signature, the key that the registry lists under the credential, and the authenticator's
-- bytes followed by the hash of the client data; and the guard's reader gets the same bytes with the
-- expiry and the policy of the very intent whose hash was signed.
pub build_proof-IsConsistent :
    (host : Host) (client : Client) (args : ProofArgs) (out : BuildProofResult)
    → IsSane host
    → host.now_ms / 1000 + get_or args.expiry_ttl_sec 120 < 2 ^ 64
    → build_proof host client args ≡ ok out
    → IsConsistent host client args out
build_proof-IsConsistent host client args out sane soon built =
    let run = build_proof-Run host client args out built in
    record {
      run = run;
      key_of_credential =
          find_entry-id args.credential_id run.registry.keys run.entry run.was_found;
      verified = run-verified host client args out sane run;
      proved =
          run-proved host client args out sane run
            (rw (expiry_of_intent host client args run.nonce) soon);
    }
