-- ===== src/React/Logs.antt =====
-- packages/sdk/src/react/detector.ts and packages/sdk/src/react/error.ts: what the SDK reads from the
-- program's log lines, and whether a transaction needs a proof. The RPC is a parameter.
pub mod Policy
pub mod Detection
pub mod Errors
use trana.Prelude.{
  ℕ, zero, suc, ◌+◌, List, [], ◌∷◌, ◌++◌, Option, none, some, Bool, true, false, ◌&&◌, ◌||◌, ltb,
  leb, ◌==◌,
}
use trana.Prelude.{if◌then◌else◌, length, take, drop, any, codes, get_elem?}
use trana.Prelude.Equality.{same}
use trana.Prelude.Result.{Result, ok, err, ◌>>=◌, or_throw}
use mathlib.Core.List.{reverse}
use mathlib.Core.Option.{get_or}
use mathlib.Core.Option

abbrev pub starts_with : List ℕ → List ℕ → Bool
starts_with [] text = true
starts_with (c ∷ cs) [] = false
starts_with (c ∷ cs) (d ∷ text) = (c == d) && starts_with cs text

-- `text.indexOf(needle)`, for a needle that is not empty.
abbrev pub index_of_text : List ℕ → List ℕ → Option ℕ
index_of_text needle [] = none
index_of_text needle (c ∷ text) =
    if starts_with needle (c ∷ text) then some 0 else Option.map suc (index_of_text needle text)

abbrev pub is_some {ℓ} : {A : Type ℓ} → Option A → Bool
is_some none = false
is_some (some a) = true

-- `text.includes(needle)`
unfoldable pub includes : List ℕ → List ℕ → Bool
includes needle text = is_some (index_of_text needle text)

-- The white space of `trim()`.
abbrev pub is_space : ℕ → Bool
is_space c =
    (leb 9 c && leb c 13)
    || (c == 32)
    || (c == 160)
    || (c == 0x1680)
    || (leb 0x2000 c && leb c 0x200a)
    || (c == 0x2028)
    || (c == 0x2029)
    || (c == 0x202f)
    || (c == 0x205f)
    || (c == 0x3000)
    || (c == 0xfeff)

abbrev pub trim_start : List ℕ → List ℕ
trim_start [] = []
trim_start (c ∷ text) = if is_space c then trim_start text else c ∷ text

abbrev pub trim : List ℕ → List ℕ
trim text = reverse (trim_start (reverse (trim_start text)))

abbrev pub require_prefix : List ℕ
require_prefix = codes "TRANA require | policy="

abbrev pub missing_proof_marker : List ℕ
missing_proof_marker = codes "TRANA_MISSING_PROOF"

abbrev pub separator : List ℕ
separator = codes " | "

-- Up to the separator, or to the end where there is none.
unfoldable pub policy_of : List ℕ → Option ℕ → List ℕ
policy_of after none = trim after
policy_of after (some end) = trim (take end after)

-- The body of the loop on a line, with the position of the prefix, before the result for the rest.
unfoldable pub policy_or : List ℕ → Option ℕ → Option (List ℕ) → Option (List ℕ)
policy_or line none rest = rest
policy_or line (some idx) rest =
    let after = drop (idx + length require_prefix) line in
    some (policy_of after (index_of_text separator after))

unfoldable pub parse_policy_from_logs : List (List ℕ) → Option (List ℕ)
parse_policy_from_logs [] = none
parse_policy_from_logs (line ∷ logs) =
    policy_or line (index_of_text require_prefix line) (parse_policy_from_logs logs)

pub data TranaErrorKind : Type 0 where
  no_registry missing_proof : TranaErrorKind

abbrev pub markers : List (List ℕ × TranaErrorKind)
markers =
    (codes "TRANA_NO_REGISTRY", no_registry) ∷ (codes "TRANA_MISSING_PROOF", missing_proof) ∷ []

-- The loop over the markers on one text, and what follows where none is in it.
unfoldable pub marker_in :
    List (List ℕ × TranaErrorKind) → List ℕ → Option TranaErrorKind → Option TranaErrorKind
marker_in [] text rest = rest
marker_in ((marker, kind) ∷ more) text rest =
    if includes marker text then some kind else marker_in more text rest

abbrev pub marker_in_logs : List (List ℕ) → Option TranaErrorKind → Option TranaErrorKind
marker_in_logs [] rest = rest
marker_in_logs (line ∷ logs) rest = marker_in markers line (marker_in_logs logs rest)

-- What an exception carries; one that is no object is `none` below.
pub record Thrown : Type 0 where
  pub logs : Option (List (List ℕ))
  pub message : Option (List ℕ)

unfoldable pub parse_trana_error : Option Thrown → Option TranaErrorKind
parse_trana_error none = none
parse_trana_error (some e) =
    marker_in_logs (get_or e.logs []) (marker_in markers (get_or e.message []) none)

unfoldable pub is_trana_error : Option Thrown → Bool
is_trana_error e = is_some (parse_trana_error e)

-- A transaction by the program ids of its instructions; a compiled one has them by index into its
-- static keys, where an index past the end finds nothing.
pub data Transaction : Type 0 where
  legacy : (program_ids : List (List ℕ)) → Transaction
  versioned : (static_account_keys : List (List ℕ)) → (program_id_indices : List ℕ) → Transaction

abbrev key_is : List ℕ → Option (List ℕ) → Bool
key_is id none = false
key_is id (some key) = same key id

unfoldable pub has_secp256r1_ix : (secp256r1_program_id : List ℕ) → Transaction → Bool
has_secp256r1_ix id (legacy program_ids) = any (λ k. same k id) program_ids
has_secp256r1_ix id (versioned keys indices) = any (λ i. key_is id (get_elem? keys i)) indices

-- `simulate` is `simulateTransaction` with the conversion of the transaction before it; `none` is
-- where they throw, and logs may be absent. `account_data` is `getAccountInfo`, with the data of an
-- account that exists, or an exception.
pub record Chain : Type 0 where
  pub secp256r1_program_id : List ℕ
  pub simulate : Transaction → Option (Option (List (List ℕ)))
  pub account_data : (pda : List ℕ) → Option (Option (List ℕ))
  pub find_registry_pda : (wallet program : List ℕ) → List ℕ

pub data DetectionResult : Type 0 where
  not_needed : DetectionResult
  needed : (reason : TranaErrorKind) → (policy : List ℕ) → DetectionResult

abbrev pub has_registry : Option (List ℕ) → Bool
has_registry none = false
has_registry (some account) = ltb 8 (length account)

-- From the logs of the simulation on.
unfoldable pub detect_in_logs :
    Chain → (wallet program fallback_policy : List ℕ) → List (List ℕ) → Option DetectionResult
detect_in_logs chain wallet program fallback_policy logs =
    if any (includes missing_proof_marker) logs
    then Option.map
        (λ account.
          needed (if has_registry account then missing_proof else no_registry)
            (get_or (parse_policy_from_logs logs) fallback_policy))
        (chain.account_data (chain.find_registry_pda wallet program))
    else some not_needed

unfoldable pub after_simulation :
    Chain
    → (wallet program fallback_policy : List ℕ) → Option (Option (List (List ℕ)))
    → Option DetectionResult
after_simulation chain wallet program fallback_policy none = some not_needed
after_simulation chain wallet program fallback_policy (some logs) =
    detect_in_logs chain wallet program fallback_policy (get_or logs [])

-- `none` is the exception of `getAccountInfo`.
unfoldable pub detect_enforcement :
    Chain → Transaction → (wallet program fallback_policy : List ℕ) → Option DetectionResult
detect_enforcement chain tx wallet program fallback_policy =
    if has_secp256r1_ix chain.secp256r1_program_id tx
    then some not_needed
    else after_simulation chain wallet program fallback_policy (chain.simulate tx)
