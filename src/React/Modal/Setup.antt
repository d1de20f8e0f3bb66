-- ===== src/React/Modal/Setup.antt =====
-- What the setup of packages/sdk/src/react/modal.tsx submits, against the interface description of the
-- guard program in packages/sdk/src/types/trana_guard.ts.
use trana.Prelude.{ℕ, ◌≡◌, refl, ap, ◌∙◌, List, [], ◌∷◌, ◌++◌, none, some, All, codes}
use trana.Prelude.Result.{Result, ok, >>=-eq-ok, or_throw, map_err}
use trana.Bytes.Endian.{split_at-append}
use trana.Types.{Instruction}
use trana.Idl.{read_call}
use trana.Idl.Guard.{guard_enums, guard_instructions}
use trana.React.Modal.{
  Env, ModalError, thrown, webauthn, config_not_initialized, set_up, build_register_ix,
  register_disc,
}
use trana.React.Webauthn.{do_registration}
use mathlib.Core.Path.{subst}
use trana.Bytes.{slice}

unknown :
    (rest : List ℕ)
    → All (λ i. read_call guard_enums i (register_disc ++ rest) ≡ none) guard_instructions
unfolding read_call trana.Prelude.Equality.same
unknown rest =
    rw (split_at-append register_disc rest 8 refl)
      (refl, (refl, (refl, (refl, (refl, (refl, (refl, (refl, tt))))))))

-- An instruction for the guard whose data the guard reads as no call of any of its instructions.
abbrev pub IsUnknownTo : Env → Instruction → Type 0
IsUnknownTo env ix =
    (ix.program_id ≡ env.guard)
    × All (λ i. read_call guard_enums i ix.payload ≡ none) guard_instructions

ok_unique :
    (m : Result ModalError Instruction) {ix ix' : Instruction} → m ≡ ok ix → m ≡ ok ix' → ix ≡ ix'
ok_unique m h h' = cc

-- Whatever the setup of the modal submits with success, it is no call of any instruction that the
-- interface description of the guard lists: its discriminator is that of none of them.
pub set_up-unknown :
    (env : Env) (wallet : List ℕ) (ix : Instruction)
    → set_up env wallet ≡ ok ix
    → IsUnknownTo env ix
unfolding set_up build_register_ix
set_up-unknown env wallet ix h =
    let config_pda = env.addresses.find_program_address (codes "config" ∷ []) env.guard in
    let (info, _, h1) = >>=-eq-ok (or_throw (env.account_data config_pda) thrown) _ h in
    let (account, _, h2) = >>=-eq-ok (or_throw info config_not_initialized) _ h1 in
    let (treasury, _, h3) =
      >>=-eq-ok (or_throw (env.addresses.of_bytes (slice account 40 72)) thrown) _ h2 in
    let (handle, _, h4) =
      >>=-eq-ok
        (map_err webauthn
          (do_registration env.navigator env.challenge env.user_id env.hostname env.rp_id))
        _ h3 in
    let (blockhash, _, h5) = >>=-eq-ok (or_throw env.latest_blockhash thrown) _ h4 in
    let submitted =
      build_register_ix env.addresses env.system_program wallet env.guard handle.pubkey_bytes
        handle.credential_id config_pda treasury in
    let (_, _, h6) = >>=-eq-ok (or_throw (env.submit blockhash submitted) thrown) _ h5 in
    subst (IsUnknownTo env) (ok_unique (ok submitted) refl h6) (refl, unknown _)
