-- ===== src/Authority/Address.antt =====
-- The program addresses of packages/sdk/src/authority/client.ts.
use trana.Prelude.{ℕ, ◌≡◌, List, Option, none, some, [], ◌∷◌, All, codes, ◌≢◌, ap, sym, ◌∙◌}
use trana.Prelude.Result.{ok, >>=-eq-ok}
use trana.Types.{KeyText, Cluster, devnet}
use trana.Authority.{
  Anchor, Client, Call, record_pda, register, execute_upgrade, reclaim_authority, new_client,
  resolved_program_id,
}
use mathlib.Core.Option.{get_or}
use trana.Authority.{register_ix, execute_upgrade_ix, reclaim_authority_ix}

pub program_of :
    (anchor : Anchor) (keys : KeyText) (program_id : Option (List ℕ)) (cluster : Option Cluster)
    (client : Client)
    → new_client anchor keys program_id cluster ≡ ok client
    → client.program ≡ anchor.idl_address
unfolding new_client
program_of anchor keys (some id) cluster client made = cc
program_of anchor keys none cluster client made =
    let (_, _, e) = >>=-eq-ok (resolved_program_id keys (get_or cluster devnet)) _ made in cc

id_of :
    (anchor : Anchor) (keys : KeyText) (id : List ℕ) (cluster : Option Cluster) (client : Client)
    → new_client anchor keys (some id) cluster ≡ ok client
    → client.program_id ≡ id
unfolding new_client
id_of anchor keys id cluster client made = cc

-- A client that is made with a program id of its own, where Anchor's builder addresses the program that it
-- is for: its three instructions address the program of the IDL file, and not the one that was given when
-- that is another, while the client's authority record is derived for the one that was given.
pub instructions_address_idl :
    (anchor : Anchor) (keys : KeyText) (id : List ℕ) (cluster : Option Cluster) (client : Client)
    → new_client anchor keys (some id) cluster ≡ ok client
    → ((program : List ℕ) (c : Call) → (anchor.build program c).program_id ≡ program)
    → id ≢ anchor.idl_address
    → (owner target program_data buffer spill new_authority : List ℕ)
    → All
        (λ ix. (ix.program_id ≡ anchor.idl_address) × (ix.program_id ≢ client.program_id))
        (register_ix anchor client owner target
          ∷ execute_upgrade_ix anchor client owner target program_data buffer spill
          ∷ reclaim_authority_ix anchor client owner target program_data new_authority
          ∷ [])
      × (record_pda anchor client owner target
          ≡ anchor.find_program_address (codes "trana-authority" ∷ owner ∷ target ∷ []) id)
unfolding register_ix execute_upgrade_ix reclaim_authority_ix record_pda
instructions_address_idl anchor keys id cluster client made builds other owner target program_data
      buffer spill new_authority =
    (
      (
        addressed (register owner target),
        (
          addressed (execute_upgrade owner target program_data buffer spill),
          (addressed (reclaim_authority new_authority owner target program_data new_authority), tt),
        ),
      ),
      ap (anchor.find_program_address _) given_id,
    )
  where
    e : client.program ≡ anchor.idl_address
    e = program_of anchor keys (some id) cluster client made

    given_id : client.program_id ≡ id
    given_id = id_of anchor keys id cluster client made

    addressed :
        (c : Call)
        → ((anchor.build client.program c).program_id ≡ anchor.idl_address)
          × ((anchor.build client.program c).program_id ≢ client.program_id)
    addressed c = (
      builds client.program c ∙ e,
      λ same. other (sym given_id ∙ sym same ∙ builds client.program c ∙ e),
    )

-- A client that is made for a cluster alone takes the program id from the table.
pub resolved_of :
    (anchor : Anchor) (keys : KeyText) (cluster : Cluster) (client : Client)
    → new_client anchor keys none (some cluster) ≡ ok client
    → resolved_program_id keys cluster ≡ ok client.program_id
unfolding new_client
resolved_of anchor keys cluster client made =
    let (id, found, e) = >>=-eq-ok (resolved_program_id keys cluster) _ made in cc
