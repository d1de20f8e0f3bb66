-- ===== src/Tests/Page.antt =====
-- The handlers of the site's page, on a concrete wallet, browser and chain.
use trana.Prelude.{
  ℕ, ◌+◌, refl, List, [], ◌∷◌, Option, none, some, true, false, All, replicate, codes,
  if◌then◌else◌,
}
use trana.Prelude.Equality.{same}
use trana.Landing.Vault.{Account, pos}
use trana.Landing.Page.{World, Page}
use trana.Landing.Page.Kept.{IsHonest}
use trana.Landing.Page.Safety.{IsCoveredPart, handle_withdraw-IsSafe}
use trana.Landing.Page.Withdraw.{handle_withdraw}
use trana.Landing.Page.Manage.{Loader}
use trana.Landing.Page.Secure.{AuthorityCalls, Console, handle_auth_secure}
use trana.Landing.Page.Secure.Lock.{IsFree, handle_auth_secure-IsFree}
use trana.Tests.{plain_keys, dirty_memory, wallet, withdraw}
use trana.Tests.Signing.{navigator}
use trana.Tests.Landing.{programs, addresses, registry_bytes}

-- Two seeds give the registry, three the user's deposit, which is not there yet.
abbrev info : (pda : List ℕ) → Option (Option Account)
info pda =
    if same pda (replicate 32 42)
    then some (some (record { lamports = 5; contents = registry_bytes }))
    else some none

abbrev pub world : World
world = record {
  keys = plain_keys;
  memory = dirty_memory;
  programs = programs;
  addresses = addresses;
  demo_pool = replicate 32 11;
  rp_id = codes "localhost";
  connection = λ t. record { account_info = info; rent_exemption = λ size. some 0 };
  navigator = λ t. navigator;
  random_32 = λ t. replicate 32 3;
  now_ms = λ t. 1000000 + t;
  latest_blockhash = λ t. some (replicate 32 12);
  simulate =
      λ t tx. some (record { logs = some (codes "Program log: ok" ∷ []); has_error = false });
  send_transaction = λ t tx. some (replicate 64 13);
  confirm = λ t signature blockhash. some true;
  status = λ t signature. some none;
  recent = λ t address. some none;
}

abbrev pub page : Page
page = record {
  moment = 0;
  public_key = some wallet;
  pool_exists = some true;
  pool_lamports = some 900;
  user_deposit = some (record {
    balance = 700;
    exists_on_chain = true;
    window_withdrawn = 0;
    last_withdraw_at = pos 0;
    last_withdraw_slot = 0;
  });
  passkey = none;
  wallet_modal = false;
  sent = [];
  shown = [];
}

handle_withdraw-IsSafe_example :
    All (IsCoveredPart world page 500) (handle_withdraw world 500 page).sent
    × All (IsHonest world) (handle_withdraw world 500 page).shown
handle_withdraw-IsSafe_example = handle_withdraw-IsSafe world 500 page refl refl

abbrev pub loader : Loader
loader = record {
  bpf_upgradeable = replicate 32 20;
  sysvar_rent = replicate 32 21;
  sysvar_clock = replicate 32 22;
  execute_upgrade_ix = λ owner program program_data buffer spill. withdraw;
}

abbrev authority_calls : AuthorityCalls
authority_calls = record {
  record_pda = λ owner target. replicate 32 30;
  register_ix = λ owner target. withdraw;
}

abbrev pub console : Console
console = record {
  running = false;
  busy = false;
  status = none;
  tx_signature = none;
  steps_done = false;
}

handle_auth_secure-IsFree_example :
    IsFree (handle_auth_secure world loader authority_calls (replicate 32 42) (console, page)).0
handle_auth_secure-IsFree_example =
    handle_auth_secure-IsFree world loader authority_calls (replicate 32 42) console page
      (refl, refl)
