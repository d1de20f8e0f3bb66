-- ===== src/Idl/Authority/Given.antt =====
-- The accounts that packages/sdk/src/authority/client.ts hands to Anchor's builders, against
-- packages/sdk/src/types/trana_authority.ts.
use trana.Types.{KeyText}
use trana.Prelude.{
  ℕ, ◌≡◌, refl, ap, All, if◌then◌else◌, List, [], ◌∷◌, Bool, true, false, ◌||◌, ◌&&◌, any, codes,
}
use trana.Prelude.Equality.{same}
use trana.Idl.{
  IdlInstruction, IdlAccount, Seed, Place, const, account, anywhere, fixed, derived, derived_by,
  key_named, IsAt,
}
use trana.Idl.Authority
use trana.Authority.{Anchor, Client, Call, register, execute_upgrade, reclaim_authority, record_pda}

-- The argument of `.accounts(…)` of each method.
unfoldable pub given : Call → List (List ℕ × List ℕ)
given (register owner target) = (codes "owner", owner) ∷ (codes "target", target) ∷ []
given (execute_upgrade owner program program_data buffer spill) =
    (codes "owner", owner)
    ∷ (codes "program", program)
    ∷ (codes "programData", program_data)
    ∷ (codes "buffer", buffer)
    ∷ (codes "spill", spill)
    ∷ []
given (reclaim_authority new_authority owner target program_data new_authority_info) =
    (codes "owner", owner)
    ∷ (codes "target", target)
    ∷ (codes "programData", program_data)
    ∷ (codes "newAuthorityInfo", new_authority_info)
    ∷ []

-- The method of the description that each call names.
abbrev pub described : Call → IdlInstruction
described (register owner target) = Authority.register
described (execute_upgrade owner program program_data buffer spill) = Authority.execute_upgrade
described (reclaim_authority new_authority owner target program_data new_authority_info) =
    Authority.reclaim_authority

-- Whose record a call uses: that of the owner and of the program in question.
abbrev pub subject : Call → List ℕ × List ℕ
subject (register owner target) = (owner, target)
subject (execute_upgrade owner program program_data buffer spill) = (owner, program)
subject (reclaim_authority new_authority owner target program_data new_authority_info) =
    (owner, target)

abbrev is_given : List (List ℕ × List ℕ) → (name : List ℕ) → Bool
is_given names name = any (λ n. same n.0 name) names

abbrev is_seed : List (List ℕ × List ℕ) → Seed → Bool
is_seed names (const value) = true
is_seed names (account path) = is_given names path

abbrev are_seeds : List (List ℕ × List ℕ) → List Seed → Bool
are_seeds names [] = true
are_seeds names (s ∷ seeds) = is_seed names s && are_seeds names seeds

-- An account can be found from the names that are given: it is given, it has an address, or it is
-- derived from what is given, for the program itself or for one with an address.
abbrev is_found : List (List ℕ × List ℕ) → List IdlAccount → IdlAccount → Bool
is_found names accounts a = is_given names a.name || by_place a.place
  where
    has_address : Place → Bool
    has_address (fixed address) = true
    has_address place = false

    by_place : Place → Bool
    by_place anywhere = false
    by_place (fixed address) = true
    by_place (derived seeds) = are_seeds names seeds
    by_place (derived_by program seeds) =
        are_seeds names seeds && any (λ b. same b.name program && has_address b.place) accounts

abbrev pub place_of : (name : List ℕ) → List IdlAccount → Place
place_of name [] = anywhere
place_of name (a ∷ accounts) = if same a.name name then a.place else place_of name accounts

-- A call is complete: every described account is found from those that are given, every given name is
-- that of a described account, and the record is where the client says that it is.
pub record IsComplete (anchor : Anchor) (keys : KeyText) (client : Client) (c : Call) : Type 0 where
  pub found : All (λ a. is_found (given c) (described c).accounts a ≡ true) (described c).accounts
  pub known : All (λ n. any (λ a. same a.name n.0) (described c).accounts ≡ true) (given c)
  pub recorded :
      IsAt
        (record {
          keys = keys;
          find_program_address = anchor.find_program_address;
          program = client.program;
        })
        (given c)
        (place_of (codes "authorityRecord") (described c).accounts)
        (record_pda anchor client (subject c).0 (subject c).1)

-- For each of the three instructions, the accounts that the client hands over are accounts of the
-- instruction's description, and with them every account of the description is given, fixed, or derived
-- from seeds that are given; and where the client's program id is the address of its Anchor program,
-- the description derives the authority record at the address that `recordPda` gives for the owner and
-- the program in question.
pub given-IsComplete :
    (anchor : Anchor) (keys : KeyText) (client : Client) (c : Call)
    → client.program_id ≡ client.program
    → IsComplete anchor keys client c
unfolding given record_pda key_named same
given-IsComplete anchor keys client (register owner target) same_program = record {
  found = (refl, (refl, (refl, (refl, tt))));
  known = (refl, (refl, tt));
  recorded = ap (anchor.find_program_address _) same_program;
}
given-IsComplete anchor keys client (execute_upgrade owner program program_data buffer spill)
      same_program =
    record {
      found = (
        refl,
        (refl, (refl, (refl, (refl, (refl, (refl, (refl, (refl, (refl, (refl, (refl, tt))))))))))),
      );
      known = (refl, (refl, (refl, (refl, (refl, tt)))));
      recorded = ap (anchor.find_program_address _) same_program;
    }
given-IsComplete anchor keys client
      (reclaim_authority new_authority owner target program_data new_authority_info) same_program =
    record {
      found = (refl, (refl, (refl, (refl, (refl, (refl, (refl, (refl, (refl, (refl, tt))))))))));
      known = (refl, (refl, (refl, (refl, tt))));
      recorded = ap (anchor.find_program_address _) same_program;
    }
