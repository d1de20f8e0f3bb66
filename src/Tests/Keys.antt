-- ===== src/Tests/Keys.antt =====
-- The handlers of the site's page that prove with a passkey, where the browser makes and uses one and the
-- chain has the accounts.
use trana.Prelude.{ℕ, ◌≡◌, refl, List, [], ◌∷◌, ◌++◌, some, true, replicate, All, if◌then◌else◌}
use trana.Prelude.Equality.{same}
use trana.Prelude.Result.{ok}
use trana.Webauthn.{Navigator, answer}
use trana.Landing.Vault.{Account}
use trana.Landing.Page.{World}
use trana.Landing.Page.Kept.{IsHonest}
use trana.Landing.Page.Manage.{handle_upgrade_passkey, handle_add_passkey, connected}
use trana.Landing.Page.Upgrades.{
  IsUpgrade, IsAddition, handle_upgrade_passkey-IsProven, handle_add_passkey-IsProven,
}
use trana.Tests.Signing.{p256_header, assertion}
use trana.Tests.Landing.{registry_bytes, config_bytes}
use trana.Tests.Page.{world, page, loader}

-- The registry, and for every other address an account whose bytes name keys wherever they are read.
abbrev account : (address : List ℕ) → Account
account address =
    if same address (replicate 32 42)
    then record { lamports = 5; contents = registry_bytes }
    else record { lamports = 5; contents = config_bytes }

abbrev navigator : Navigator
navigator = record {
  has_credentials = true;
  create = λ options.
      answer (record { spki = some (p256_header ++ (0x04 ∷ replicate 64 9)); raw_id = 7 ∷ 7 ∷ [] });
  get = λ options. answer assertion;
}

abbrev served : World
served = record world {
  navigator = λ t. navigator;
  connection = λ t. record {
    account_info = λ address. some (some (account address));
    rent_exemption = λ size. some 0;
  };
}

handle_add_passkey-IsProven_example :
    All
      (λ tx. (owner : List ℕ) × (connected page ≡ ok owner) × IsAddition served owner tx)
      (handle_add_passkey served page).sent
    × All (IsHonest served) (handle_add_passkey served page).shown
handle_add_passkey-IsProven_example = handle_add_passkey-IsProven served page refl refl

handle_upgrade_passkey-IsProven_example :
    All
      (λ tx.
        (owner : List ℕ) × (connected page ≡ ok owner)
        × IsUpgrade served loader owner page.passkey (replicate 32 30) (replicate 32 50) tx)
      (handle_upgrade_passkey served loader (replicate 32 30) (replicate 32 50) page).sent
    × All
        (IsHonest served)
        (handle_upgrade_passkey served loader (replicate 32 30) (replicate 32 50) page).shown
handle_upgrade_passkey-IsProven_example =
    handle_upgrade_passkey-IsProven served loader (replicate 32 30) (replicate 32 50) page refl refl
