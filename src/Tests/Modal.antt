-- ===== src/Tests/Modal.antt =====
-- The modals, the nudge and the provider's effect, on concrete input.
use trana.Prelude.{◌≡◌, refl, arith, List, [], ◌∷◌, ◌++◌, none, some, true, false, replicate, codes}
use trana.Prelude.Result.{ok}
use trana.Bytes.{le_bytes}
use trana.Types.{Instruction}
use trana.Webauthn.{answer}
use trana.React.Hub.{
  Hub, fresh_hub, approval, call, trigger_approval, reject_pending, resolve_approval,
}
use trana.React.Hub.Settling.{fresh_hub-IsSound}
use trana.React.Intent.{build_intent, intent_from_instruction}
use trana.React.Registry.{RegistryState, fetched}
use trana.React.Registry.Layout.{documented, parse_registry_account-documented}
use trana.React.Webauthn
use trana.React.Modal.{Env, Progress, set_up, build_register_ix, confirmation_amount, press_approve}
use trana.React.Modal.Amount.{confirmation_amount-build_intent}
use trana.React.Modal.Approval.{IsOutcome, press_approve-settles}
use trana.React.Modal.Setup.{IsUnknownTo, set_up-unknown}
use trana.React.Nudge.{called, renders, fires, mounted, idle}
use trana.React.Nudge
use trana.React.Nudge.Hidden.{steps-hidden}
use trana.React.Watch.{fresh_watch, connects, answers, steps}
use trana.React.Watch
use trana.React.Watch.Ownership.{Belongs, AreOrderly, steps-Belongs}
use trana.Landing.Vault.{build_withdraw_ix, withdraw_disc}
use trana.Tests.{plain_keys, wallet, guard_id, config}
use trana.Tests.Signing.{p256_header, assertion}
use trana.Tests.React.{registry_state}
use trana.Tests.Landing.{programs, addresses, config_bytes}

abbrev pub env : Env
env = record {
  keys = plain_keys;
  addresses = addresses;
  system_program = replicate 32 0;
  guard = guard_id;
  wallet = some wallet;
  can_sign = true;
  account_data = λ pda. some (some config_bytes);
  navigator = record {
    has_credentials = true;
    create = λ options.
        answer
          (record { spki = some (p256_header ++ (0x04 ∷ replicate 64 9)); raw_id = 1 ∷ 2 ∷ [] });
    get = λ options. answer assertion;
  };
  challenge = replicate 32 3;
  user_id = replicate 16 4;
  hostname = codes "localhost";
  rp_id = none;
  reencode = λ bytes. bytes;
  latest_blockhash = some (replicate 32 12);
  submit = λ blockhash ix. some tt;
}

abbrev submitted : Instruction
submitted =
    build_register_ix addresses (replicate 32 0) wallet guard_id (3 ∷ replicate 32 9) (1 ∷ 2 ∷ [])
      (replicate 32 41) (replicate 32 9)

was_set_up : set_up env wallet ≡ ok submitted
unfolding set_up Webauthn.do_registration Webauthn.extract_pubkey_from_attestation Webauthn.point_at
    Webauthn.index_of Webauthn.compress_p256
was_set_up = refl

set_up-unknown_example : IsUnknownTo env submitted
set_up-unknown_example = set_up-unknown env wallet submitted was_set_up

abbrev taken : Instruction
taken =
    build_withdraw_ix programs (replicate 32 1) (replicate 32 2) wallet wallet (replicate 32 3)
      500000000

confirmation_amount-build_intent_example :
    confirmation_amount (
      build_intent plain_keys wallet guard_id
        (intent_from_instruction taken (some (codes "Withdraw")))
        5
        config
        1000000)
    ≡ some 500000000
unfolding build_withdraw_ix le_bytes
confirmation_amount-build_intent_example =
    confirmation_amount-build_intent plain_keys wallet guard_id taken (some (codes "Withdraw")) 5
      config 1000000 withdraw_disc 500000000 [] refl refl (omega arith)

abbrev asked : Hub
asked = call fresh_hub (
    trigger_approval (
      build_intent plain_keys wallet guard_id (intent_from_instruction taken none) 5 config
        1000000))

abbrev waiting : Progress
waiting = record { busy = false; error = none }

-- The modal is dismissed and another approval is asked for before the browser answers.
abbrev another : Hub → Hub
another hub = call (call hub (reject_pending (codes "Cancelled"))) (
    trigger_approval (
      build_intent plain_keys wallet guard_id (intent_from_instruction taken none) 6 config
        1000000))

press_approve-settles_example :
    IsOutcome env registry_state
      (build_intent plain_keys wallet guard_id
        (intent_from_instruction taken none)
        5
        config
        1000000)
      (record { kind = approval; promise = 1 })
      (another asked)
      (press_approve env (some registry_state) another asked.state (asked, waiting))
unfolding call
press_approve-settles_example =
    press_approve-settles env registry_state
      (build_intent plain_keys wallet guard_id (intent_from_instruction taken none) 5 config
        1000000)
      another asked waiting (record { kind = approval; promise = 1 }) refl refl refl

-- The whole of a flow with an approval, a render at each call.
abbrev session : List Nudge.Event
session =
    called (
      trigger_approval (
        build_intent plain_keys wallet guard_id (intent_from_instruction taken none) 5 config
          1000000))
    ∷ renders
    ∷ called
        (resolve_approval (record { sig = []; authenticator_data = []; client_data_json = [] }))
    ∷ renders
    ∷ fires
    ∷ []

steps-hidden_example : (Nudge.steps (fresh_hub, mounted idle false) session).1.show ≡ false
steps-hidden_example =
    steps-hidden (fresh_hub, mounted idle false) session fresh_hub-IsSound refl refl refl

abbrev foreign_state : RegistryState
foreign_state = record registry_state { owner = replicate 32 8 }

fetched_mine :
    fetched (some (documented (replicate 8 1) 0 registry_state)) ≡ some (some registry_state)
unfolding fetched le_bytes
fetched_mine =
    rw
      (parse_registry_account-documented (replicate 8 1) 0 registry_state refl refl (omega arith)
        (omega arith) (omega arith))
      refl

fetched_foreign :
    fetched (some (documented (replicate 8 1) 0 foreign_state)) ≡ some (some foreign_state)
unfolding fetched le_bytes
fetched_foreign =
    rw
      (parse_registry_account-documented (replicate 8 1) 0 foreign_state refl refl (omega arith)
        (omega arith) (omega arith))
      refl

abbrev visit : List Watch.Event
visit =
    connects (some wallet)
    ∷ answers 0 (some (some (documented (replicate 8 1) 0 registry_state)))
    ∷ connects (some (replicate 32 8))
    ∷ answers 0 (some (some (documented (replicate 8 1) 0 foreign_state)))
    ∷ []

orderly : AreOrderly fresh_watch visit
unfolding Watch.step Watch.run_effect Watch.answered
orderly = rw (fetched_mine, fetched_foreign) (refl, (refl, (refl, (refl, tt))))

at_rest : (steps fresh_watch visit).fetching ≡ []
unfolding steps Watch.step Watch.run_effect Watch.answered
at_rest = rw (fetched_mine, fetched_foreign) refl

steps-Belongs_example : Belongs (steps fresh_watch visit).wallet (steps fresh_watch visit).registry
steps-Belongs_example = steps-Belongs fresh_watch visit refl refl tt orderly at_rest
