-- ===== src/React/Logs/Detection.antt =====
-- detectEnforcement of packages/sdk/src/react/detector.ts.
use mathlib.Core.Path.{subst}
use trana.Prelude.{
  ℕ, ◌≡◌, ◌<◌, ◌≤◌, ◌↔◌, inl, inr, refl, sym, arith, List, Option, none, some, any, true, false,
  length, Bool-cases, if◌then◌else◌, ltb, ltb→lt, lt→ltb, le→not_ltb,
}
use trana.React.Logs.{
  Chain, Transaction, TranaErrorKind, missing_proof, no_registry, needed, detect_enforcement,
  after_simulation, detect_in_logs,
}
use trana.React.Logs.{
  has_registry, has_secp256r1_ix, includes, missing_proof_marker, parse_policy_from_logs,
}
use mathlib.Core.Option.{get_or}

not_ltb→le : (a b : ℕ) → ltb b a ≡ false → a ≤ b
not_ltb→le a b h = ground arith

-- What is to be said of the registry's account: with more than the 8 bytes of a discriminator a proof is
-- missing, and without such an account the registry is.
pub data IsReason : Option (List ℕ) → TranaErrorKind → Type 0 where
  there : (bytes : List ℕ) → 8 < length bytes → IsReason (some bytes) missing_proof
  short : (bytes : List ℕ) → length bytes ≤ 8 → IsReason (some bytes) no_registry
  absent : IsReason none no_registry

-- A transaction without a precompile instruction whose simulation logged the marker of a missing proof,
-- where the registry's account can be read.
pub record IsAsked (chain : Chain) (tx : Transaction) (wallet program fallback_policy : List ℕ)
    (reason : TranaErrorKind) (policy : List ℕ) : Type 0 where
  pub logs : List (List ℕ)
  pub account : Option (List ℕ)
  pub unproven : has_secp256r1_ix chain.secp256r1_program_id tx ≡ false
  pub simulated : chain.simulate tx ≡ some (some logs)
  pub marked : any (includes missing_proof_marker) logs ≡ true
  pub read : chain.account_data (chain.find_registry_pda wallet program) ≡ some account
  pub why : IsReason account reason
  pub named : policy ≡ get_or (parse_policy_from_logs logs) fallback_policy

IsReason-said :
    {account : Option (List ℕ)} {reason : TranaErrorKind}
    → IsReason account reason
    → (if has_registry account then missing_proof else no_registry) ≡ reason
IsReason-said (there bytes long) = rw (lt→ltb 8 (length bytes) long) refl
IsReason-said (short bytes few) = rw (le→not_ltb (length bytes) 8 few) refl
IsReason-said absent = refl

said-IsReason :
    (account : Option (List ℕ))
    → IsReason account (if has_registry account then missing_proof else no_registry)
said-IsReason none = absent
said-IsReason (some bytes) = elim (Bool-cases (ltb 8 (length bytes))) [
  | inl long ↦ rw long (there bytes (ltb→lt 8 (length bytes) long))
  | inr few ↦ rw few (short bytes (not_ltb→le (length bytes) 8 few))
]

module _ (chain : Chain) (tx : Transaction) (wallet program fallback policy : List ℕ) where
  asked :
      (reason : TranaErrorKind)
      → IsAsked chain tx wallet program fallback reason policy
      → detect_enforcement chain tx wallet program fallback ≡ some (needed reason policy)
  unfolding detect_enforcement after_simulation detect_in_logs
  asked reason a =
      rw (a.unproven, a.simulated, a.marked, a.read, IsReason-said a.why, sym a.named) refl

  told :
      (reason : TranaErrorKind)
      → detect_enforcement chain tx wallet program fallback ≡ some (needed reason policy)
      → IsAsked chain tx wallet program fallback reason policy
  unfolding detect_enforcement after_simulation detect_in_logs
  told reason h =
      let (logs, account, unproven, simulated, marked, read, named, r) : (logs : List (List ℕ))
          × (account : Option (List ℕ)) × (has_secp256r1_ix chain.secp256r1_program_id tx ≡ false)
          × (chain.simulate tx ≡ some (some logs))
          × (any (includes missing_proof_marker) logs ≡ true)
          × (chain.account_data (chain.find_registry_pda wallet program) ≡ some account)
          × (policy ≡ get_or (parse_policy_from_logs logs) fallback)
          × (reason ≡ (if has_registry account then missing_proof else no_registry)) =
        ground arith in
      record {
        logs = logs;
        account = account;
        unproven = unproven;
        simulated = simulated;
        marked = marked;
        read = read;
        why = subst (IsReason account) (sym r) (said-IsReason account);
        named = named;
      }

-- A proof is asked for, with a reason and a policy, exactly when the transaction has no precompile
-- instruction, its simulation logged the marker of a missing proof, and the registry's account could be
-- read; the reason is the missing proof where that account has more than 8 bytes and the missing registry
-- where it does not or is absent, and the policy is that of the logs, or the configured one where they
-- have none.
pub detect_enforcement-needed :
    (chain : Chain) (tx : Transaction) (wallet program fallback_policy : List ℕ)
    (reason : TranaErrorKind) (policy : List ℕ)
    → (detect_enforcement chain tx wallet program fallback_policy ≡ some (needed reason policy))
      ↔ IsAsked chain tx wallet program fallback_policy reason policy
detect_enforcement-needed chain tx wallet program fallback reason policy = (
  told chain tx wallet program fallback policy reason,
  asked chain tx wallet program fallback policy reason,
)
