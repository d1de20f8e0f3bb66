-- ===== src/Landing/Page/Secure/Upgradable.antt =====
-- handleAuthSecure of apps/landing/app/try/page.tsx with the client of
-- packages/sdk/src/authority/client.ts: who can upgrade the program afterwards.
use trana.Prelude.{ℕ, ◌≡◌, refl, ap, ◌∙◌, List, [], ◌∷◌, none, some, All, All-weaken, codes}
use trana.Prelude.Equality.{same}
use trana.Prelude.Result.{ok, or_throw-eq-ok}
use trana.Types.{KeyText, devnet, authority_program_id}
use trana.Authority.{Anchor, Client, Call, register, execute_upgrade, new_client}
use trana.Authority
use trana.Authority.Address.{program_of, resolved_of}
use trana.Idl.{IsAt, key_named}
use trana.Idl.Authority.{authority_address}
use trana.Idl.Authority.Given.{given, described, place_of}
use trana.Landing.Page.{World, Page, Transaction}
use trana.Landing.Page.Manage.{Loader}
use trana.Landing.Page.Secure.{AuthorityCalls, Console, set_authority_ix, handle_auth_secure}
use trana.Landing.Page.Kept.{IsProgramData}
use trana.Landing.Page.Secure.Handover.{IsOwnHandover, handle_auth_secure-IsHandover}

-- What the page takes from the client.
unfoldable pub site_calls : Anchor → Client → AuthorityCalls
site_calls anchor client = record {
  record_pda = Authority.record_pda anchor client;
  register_ix = Authority.register_ix anchor client;
}

-- Where the authority program's own description of executeUpgrade finds the authority that it signs
-- with, whatever the buffer and the account for the rest of the rent are.
abbrev pub SignsWith : KeyText → Anchor → (owner target program_data key : List ℕ) → Type 0
SignsWith keys anchor owner target program_data key =
    (buffer spill : List ℕ)
    → IsAt
        (record {
          keys = keys;
          find_program_address = anchor.find_program_address;
          program = anchor.idl_address;
        })
        (given (execute_upgrade owner target program_data buffer spill))
        (place_of (codes "authorityRecord")
          (described (execute_upgrade owner target program_data buffer spill)).accounts)
        key

-- The transaction registers the program with the authority program, and its loader makes the account
-- that signs later upgrades the new authority.
pub record IsUpgradable (world : World) (loader : Loader) (anchor : Anchor) (text : List ℕ)
    (page : Page) (tx : Transaction) : Type 0 where
  pub owner : List ℕ
  pub target : List ℕ
  pub program_data : List ℕ
  pub new_authority : List ℕ
  pub found : IsProgramData world target program_data
  pub connected : page.public_key ≡ some owner
  pub typed : world.keys.of_base58 text ≡ some target
  pub whole :
      tx.instructions
      ≡ anchor.build anchor.idl_address (register owner target)
        ∷ set_authority_ix loader program_data owner new_authority
        ∷ []
  pub signs : SignsWith world.keys anchor owner target program_data new_authority

-- A client for devnet, made where the address of the description reads as that of its program.
pub record IsDevnet (keys : KeyText) (anchor : Anchor) (client : Client) : Type 0 where
  pub made : new_client anchor keys none (some devnet) ≡ ok client
  pub reads : keys.of_base58 authority_address ≡ some anchor.idl_address

program_id_of :
    (keys : KeyText) (anchor : Anchor) (client : Client)
    → IsDevnet keys anchor client
    → client.program_id ≡ anchor.idl_address
unfolding Authority.resolved_program_id authority_program_id
program_id_of keys anchor client d =
    let found =
      or_throw-eq-ok (keys.of_base58 authority_address) Authority.bad_key
        (resolved_of anchor keys devnet client d.made) in
    let reads = d.reads in cc

record_pda-SignsWith :
    (keys : KeyText) (anchor : Anchor) (client : Client)
    → IsDevnet keys anchor client
    → (owner target program_data : List ℕ)
    → SignsWith keys anchor owner target program_data
        (Authority.record_pda anchor client owner target)
unfolding Authority.record_pda given key_named same
record_pda-SignsWith keys anchor client d owner target program_data buffer spill =
    ap (anchor.find_program_address _) (program_id_of keys anchor client d)

IsOwnHandover-IsUpgradable :
    (world : World) (loader : Loader) (anchor : Anchor) (client : Client) (text : List ℕ)
    (page : Page)
    → IsDevnet world.keys anchor client
    → (tx : Transaction) → IsOwnHandover world loader (site_calls anchor client) text page tx
    → IsUpgradable world loader anchor text page tx
unfolding site_calls Authority.register_ix
IsOwnHandover-IsUpgradable world loader anchor client text page d tx
      (owner, target, key, text_of, h) =
    let e = program_of anchor world.keys none (some devnet) client d.made in
    record {
      owner = owner;
      target = target;
      program_data = h.program_data;
      new_authority = Authority.record_pda anchor client owner target;
      found = h.found;
      connected = key;
      typed = text_of;
      whole = h.whole ∙ rw e refl;
      signs = record_pda-SignsWith world.keys anchor client d owner target h.program_data;
    }

-- handleAuthSecure with a client for devnet, of a site whose keys read the description's address as that
-- of its program: from a page that has sent and shown nothing yet, every transaction it sends registers
-- the given program for the connected wallet with the authority program, and hands the upgrade
-- authority to exactly the account with which the description of executeUpgrade signs for that wallet
-- and program, whatever the buffer and the spill account are.
pub handle_auth_secure-IsUpgradable :
    (world : World) (loader : Loader) (anchor : Anchor) (client : Client) (text : List ℕ)
    (c : Console) (page : Page)
    → IsDevnet world.keys anchor client
    → page.sent ≡ []
    → page.shown ≡ []
    → All
        (IsUpgradable world loader anchor text page)
        (handle_auth_secure world loader (site_calls anchor client) text (c, page)).1.sent
handle_auth_secure-IsUpgradable world loader anchor client text c page d no_sent no_shown =
    All-weaken _ (IsOwnHandover-IsUpgradable world loader anchor client text page d) (
      handle_auth_secure-IsHandover world loader (site_calls anchor client) text c page no_sent
        no_shown)
