-- ===== src/Tests/Secure.antt =====
-- The hand-over of a program on the site's page, with the client of the authority program, on a chain
-- where the wallet is the upgrade authority.
use trana.Prelude.{
  ℕ, ◌≡◌, refl, ap, sym, arith, List, [], ◌∷◌, Option, some, none, Bool, true, false, ◌==◌, length,
  replicate, All, codes, ◌+◌,
}
use trana.Types.{KeyText, devnet, authority_program_id}
use trana.Authority.{Anchor, Client, new_client, resolved_program_id}
use trana.Landing.Page.{World}
use trana.Landing.Page.Secure.{handle_auth_secure}
use trana.Landing.Page.Secure.Handover.{IsOwnHandover, handle_auth_secure-IsHandover}
use trana.Landing.Page.Secure.Upgradable.{
  site_calls, IsDevnet, IsUpgradable, handle_auth_secure-IsUpgradable,
}
use trana.Tests.{of_text, of_text-whole, length-of_text}
use trana.Tests.Page.{world, page, loader, console}

-- The text of a program in the program table, and any 32 bytes as they are.
abbrev of_name_if : (is_name : Bool) → (text : List ℕ) → Option (List ℕ)
of_name_if true text = some (replicate 32 9)
of_name_if false text = of_text text

abbrev of_name : List ℕ → Option (List ℕ)
of_name text = of_name_if (length text == 43) text

of_name-whole : (key : List ℕ) → length key ≡ 32 → of_name key ≡ some key
of_name-whole key h = rw h (of_text-whole key h)

length-of_name_if :
    (is_name : Bool) (text key : List ℕ) → of_name_if is_name text ≡ some key → length key ≡ 32
length-of_name_if true text key h = let e : replicate 32 9 ≡ key = cc in ap length (sym e)
length-of_name_if false text key h = length-of_text text key h

abbrev keys : KeyText
keys = record {
  to_base58 = λ key. key;
  of_base58 = of_name;
  of-to = of_name-whole;
  length-of = λ text. length-of_name_if (length text == 43) text;
}

abbrev owned : World
owned = record world {
  keys = keys;
  connection = λ t. record {
    account_info = λ address. some (some (record { lamports = 5; contents = replicate 64 1 }));
    rent_exemption = λ size. some 0;
  };
}

abbrev anchor : Anchor
anchor = record {
  AuthorityRecord = Unit {0};
  idl_address = replicate 32 9;
  build = λ program call. record { program_id = program; keys = []; payload = [] };
  find_program_address = λ seeds program. replicate 32 (40 + length seeds);
  fetch_record = λ pda. none;
}

abbrev client : Client
client = record { program_id = replicate 32 9; cluster = devnet; program = replicate 32 9 }

client-IsDevnet : IsDevnet keys anchor client
unfolding new_client resolved_program_id authority_program_id
client-IsDevnet = record { made = refl; reads = refl }

handle_auth_secure-IsUpgradable_example :
    All
      (IsUpgradable owned loader anchor (replicate 32 42) page)
      (handle_auth_secure owned loader
        (site_calls anchor client)
        (replicate 32 42)
        (console, page)).1.sent
handle_auth_secure-IsUpgradable_example =
    handle_auth_secure-IsUpgradable owned loader anchor client (replicate 32 42) console page
      client-IsDevnet refl refl

-- The chain takes one transaction from it.
sends_one :
    length
      (handle_auth_secure owned loader
        (site_calls anchor client)
        (replicate 32 42)
        (console, page)).1.sent
    ≡ 1
unfolding handle_auth_secure trana.Landing.Page.Secure.secure_wallet
    trana.Landing.Page.Secure.secure_target trana.Landing.Page.Secure.secure_end
    trana.Landing.Page.Secure.secure_body trana.Landing.Page.◌>>=◌
    trana.Landing.Page.Manage.program_data trana.Landing.Page.ask trana.Landing.Page.lift
    trana.Landing.Page.Secure.upgrade_authority trana.Prelude.Equality.same
    trana.Landing.Page.Secure.hand_over trana.Landing.Page.Steps.prepared trana.Landing.Page.return
    trana.Landing.Page.send trana.Landing.Page.◌>>◌
sends_one = refl

handle_auth_secure-IsHandover_example :
    All
      (IsOwnHandover owned loader (site_calls anchor client) (replicate 32 42) page)
      (handle_auth_secure owned loader
        (site_calls anchor client)
        (replicate 32 42)
        (console, page)).1.sent
handle_auth_secure-IsHandover_example =
    handle_auth_secure-IsHandover owned loader (site_calls anchor client) (replicate 32 42) console
      page refl refl
