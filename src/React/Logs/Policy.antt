-- ===== src/React/Logs/Policy.antt =====
-- parsePolicyFromLogs of packages/sdk/src/react/detector.ts.
use trana.Prelude.{
  ℕ, suc, ◌≡◌, ◌≢◌, refl, sym, ap, ◌∙◌, arith, List, [], ◌∷◌, ◌++◌, Option, none, some,
}
use trana.Prelude.{false, true, ◌==◌, All, length, drop, drop-append, take-append}
use trana.React.Logs.{
  index_of_text, starts_with, is_space, trim, trim_start, require_prefix, separator,
}
use trana.React.Logs.{policy_of, policy_or, parse_policy_from_logs}
use mathlib.Core.List.{reverse, reverse_aux, reverse-reverse}
use trana.Prelude.{codes, drop-drop}
use mathlib.Core.Option

starts_with-append : (needle rest : List ℕ) → starts_with needle (needle ++ rest) ≡ true
starts_with-append [] rest = refl
starts_with-append (c ∷ needle) rest = ground (arith, starts_with-append needle rest)

-- A needle is found behind a front without its first character.
index_of_text-append :
    (c : ℕ) (needle front rest : List ℕ)
    → All (λ d. d ≢ c) front
    → index_of_text (c ∷ needle) (front ++ ((c ∷ needle) ++ rest)) ≡ some (length front)
index_of_text-append c needle [] rest h = rw (starts_with-append (c ∷ needle) rest) refl
index_of_text-append c needle (d ∷ front) rest (p, h) =
    rw (other) (ap (Option.map suc) (index_of_text-append c needle front rest h))
  where
    other : (c == d) ≡ false
    other = ground arith

index_of_text-absent :
    (c : ℕ) (needle text : List ℕ) → All (λ d. d ≢ c) text → index_of_text (c ∷ needle) text ≡ none
index_of_text-absent c needle [] h = refl
index_of_text-absent c needle (d ∷ text) (p, h) =
    rw (other) (ap (Option.map suc) (index_of_text-absent c needle text h))
  where
    other : (c == d) ≡ false
    other = ground arith

abbrev pub IsSolid : List ℕ → Type 0
IsSolid text = All (λ c. is_space c ≡ false) text

trim_start-IsSolid : (text : List ℕ) → IsSolid text → trim_start text ≡ text
trim_start-IsSolid [] h = refl
trim_start-IsSolid (c ∷ text) (p, h) = rw p refl

reverse_aux-IsSolid :
    (text acc : List ℕ) → IsSolid text → IsSolid acc → IsSolid (reverse_aux text acc)
reverse_aux-IsSolid [] acc h k = k
reverse_aux-IsSolid (c ∷ text) acc (p, h) k = reverse_aux-IsSolid text (c ∷ acc) h (p, k)

trim-IsSolid : (text : List ℕ) → IsSolid text → trim text ≡ text
trim-IsSolid text h =
    ap (λ t. reverse (trim_start (reverse t))) (trim_start-IsSolid text h)
    ∙ ap reverse (trim_start-IsSolid (reverse text) (reverse_aux-IsSolid text [] h tt))
    ∙ reverse-reverse text

solid-not_space : (text : List ℕ) → IsSolid text → All (λ d. d ≢ b' ') text
solid-not_space [] h = tt
solid-not_space (c ∷ text) (p, h) = (not_space, solid-not_space text h)
  where
    not_space : c ≢ b' '
    not_space e = let q = rw e at p in cc q

-- A policy without white space is read up to the separator, or up to the end.
policy_of-IsSolid :
    (policy rest : List ℕ)
    → IsSolid policy
    → (policy_of
          (policy ++ (separator ++ rest))
          (index_of_text separator (policy ++ (separator ++ rest)))
        ≡ policy)
      × (policy_of policy (index_of_text separator policy) ≡ policy)
unfolding policy_of
policy_of-IsSolid policy rest h = (
  rw (index_of_text-append (b' ') (codes "| ") policy rest (solid-not_space policy h)) (
      ap trim (take-append policy (separator ++ rest) (length policy) refl)
      ∙ trim-IsSolid policy h),
  rw (index_of_text-absent (b' ') (codes "| ") policy (solid-not_space policy h))
      (trim-IsSolid policy h),
)

-- The line of the program that names a policy, as far as the policy.
abbrev pub require_line : (front after : List ℕ) → List ℕ
require_line front after = front ++ (require_prefix ++ after)

policy_or-require_line :
    (front after : List ℕ) (rest : Option (List ℕ))
    → All (λ d. d ≢ b'T') front
    → policy_or
        (require_line front after)
        (index_of_text require_prefix (require_line front after))
        rest
      ≡ some (policy_of after (index_of_text separator after))
unfolding policy_or
policy_or-require_line front after rest h =
    rw (index_of_text-append (b'T') (codes "RANA require | policy=") front after h) (
      ap (λ t. some (policy_of t (index_of_text separator t)))
        (sym (drop-drop (length front) (length require_prefix) (require_line front after))
          ∙ ap (drop (length require_prefix))
              (drop-append front (require_prefix ++ after) (length front) refl)
          ∙ drop-append require_prefix after (length require_prefix) refl))

skip_lines :
    (earlier logs : List (List ℕ))
    → All (λ line. index_of_text require_prefix line ≡ none) earlier
    → parse_policy_from_logs (earlier ++ logs) ≡ parse_policy_from_logs logs
unfolding parse_policy_from_logs policy_or
skip_lines [] logs h = refl
skip_lines (line ∷ earlier) logs (p, h) = rw p (skip_lines earlier logs h)

-- Behind lines without the prefix, the policy of the first line that has it is read, up to the
-- separator or up to the end of the line, for a policy without white space and a front without a T.
pub parse_policy_from_logs-require_line :
    (earlier later : List (List ℕ)) (front policy rest : List ℕ)
    → All (λ line. index_of_text require_prefix line ≡ none) earlier
    → All (λ d. d ≢ b'T') front
    → IsSolid policy
    → (parse_policy_from_logs
          (earlier ++ (require_line front (policy ++ (separator ++ rest)) ∷ later))
        ≡ some policy)
      × (parse_policy_from_logs (earlier ++ (require_line front policy ∷ later)) ≡ some policy)
unfolding parse_policy_from_logs
parse_policy_from_logs-require_line earlier later front policy rest skipped no_t solid =
    let (up_to_separator, up_to_end) = policy_of-IsSolid policy rest solid in
    (
      skip_lines earlier _ skipped
          ∙ policy_or-require_line front (policy ++ (separator ++ rest))
              (parse_policy_from_logs later) no_t
          ∙ ap some up_to_separator,
      skip_lines earlier _ skipped
          ∙ policy_or-require_line front policy (parse_policy_from_logs later) no_t
          ∙ ap some up_to_end,
    )
