-- ===== src/Landing/Page/Secure/Handover.antt =====
-- handleAuthSecure of apps/landing/app/try/page.tsx: what it sends.
use trana.Prelude.{ℕ, ◌≡◌, refl, ap, ◌∙◌, List, [], ◌∷◌, Option, none, some, true}
use trana.Prelude.{◌||◌, length, ltb, All, All-weaken, Bool-cases, inl, inr}
use trana.Prelude.Equality.{same, eq_of_same}
use trana.Prelude.Result.{Result, ok, err, or_throw-eq-ok}
use trana.Landing.Page.{World, Page, Transaction, Failure}
use trana.Landing.Page.Manage.{Loader}
use trana.Bytes.{slice}
use trana.Landing.Vault.{Account}
use trana.Landing.Page.{thrown, program_not_found}
use trana.Landing.Page.Runs.{
  Spec, >>=-Spec, >>-Spec, weaken, lift-Spec, return-Spec, ask-Spec, send-Spec,
}
use trana.Types.{PasskeyHandle}
use trana.Landing.Page.Kept.{IsProgramData, initial, rules, prepared-Spec, program_data-Spec}
use trana.Landing.Page.Secure.{
  AuthorityCalls, Console, Secured, other_authority, secured, set_authority_ix, upgrade_authority,
  hand_over, secure_body, secure_end, secure_target, secure_wallet, handle_auth_secure,
}

-- The two instructions that hand a program over, for an owner whom the chain named as its upgrade
-- authority.
pub record IsHandover (world : World) (loader : Loader) (calls : AuthorityCalls)
    (owner target : List ℕ) (tx : Transaction) : Type 0 where
  pub program_data : List ℕ
  pub found : IsProgramData world target program_data
  pub at : ℕ
  pub account : Account
  pub read : (world.connection at).account_info program_data ≡ some (some account)
  pub was_authority : world.addresses.of_bytes (slice account.contents 13 45) ≡ some owner
  pub whole :
      tx.instructions
      ≡ calls.register_ix owner target
        ∷ set_authority_ix loader program_data owner (calls.record_pda owner target)
        ∷ []
  pub paid : tx.fee_payer ≡ owner

module _ (world : World) (loader : Loader) (calls : AuthorityCalls) (owner target : List ℕ)
    (start : Option PasskeyHandle) where
  upgrade_authority-Spec :
      (address : List ℕ)
      → Spec
          (IsHandover world loader calls owner target)
          (rules world owner start)
          (λ authority.
            (t : ℕ) × (a : Account) × ((world.connection t).account_info address ≡ some (some a))
            × (world.addresses.of_bytes (slice a.contents 13 45) ≡ some authority))
          (upgrade_authority world address)
  unfolding upgrade_authority
  upgrade_authority-Spec address = >>=-Spec _ _ (ask-Spec _ _ _) λ info q1.
      >>=-Spec _ _ (lift-Spec _ _ _) λ account q2.
        weaken _ _
          (λ authority h. (
            q1.0,
            account,
            q1.1 ∙ ap some (or_throw-eq-ok info program_not_found q2),
            or_throw-eq-ok _ thrown h,
          ))
          (lift-Spec _ _ _)

  hand_over-Spec :
      (address : List ℕ) (t : ℕ) (a : Account)
      → IsProgramData world target address
      → (world.connection t).account_info address ≡ some (some a)
      → world.addresses.of_bytes (slice a.contents 13 45) ≡ some owner
      → Spec
          (IsHandover world loader calls owner target)
          (rules world owner start)
          (λ end. Unit {0})
          (hand_over world loader calls owner target address)
  unfolding hand_over
  hand_over-Spec address t a found read was =
      >>=-Spec _ _ (prepared-Spec _ world owner start _) λ tx q1.
        >>=-Spec _ _
          (send-Spec _ _ world tx (record {
            program_data = address;
            found = found;
            at = t;
            account = a;
            read = read;
            was_authority = was;
            whole = q1.0;
            paid = q1.1;
          }))
          λ signature q2.
            >>=-Spec _ _ (ask-Spec _ _ _)
              λ fine q3. >>-Spec _ _ (lift-Spec _ _ _) (return-Spec _ _ _ tt)

  secure_body-Spec :
      Spec
        (IsHandover world loader calls owner target)
        (rules world owner start)
        (λ end. Unit {0})
        (secure_body world loader calls owner target)
  unfolding secure_body
  secure_body-Spec = >>=-Spec _ _ (program_data-Spec _ world owner start target) λ address q3.
      >>=-Spec _ _ (upgrade_authority-Spec address) λ authority q4.
        elim (Bool-cases (same authority owner)) [
          | inl own ↦ rw own (
              hand_over-Spec address q4.0 q4.1 q3 q4.2
                (q4.3 ∙ ap some (eq_of_same authority owner own)))
          | inr other ↦ rw other (return-Spec _ _ other_authority tt)
        ]

secure_end-sent : (c : Console) (out : Result Failure Secured × Page) → (secure_end c out).1 ≡ out.1
unfolding secure_end
secure_end-sent c (ok other_authority, page) = refl
secure_end-sent c (ok (secured signature), page) = refl
secure_end-sent c (err e, page) = refl

-- What a call of handleAuthSecure may send, for the wallet and the program that were given.
abbrev pub IsOwnHandover :
    World → Loader → AuthorityCalls → (text : List ℕ) → Page → Transaction → Type 0
IsOwnHandover world loader calls text page tx =
    (owner : List ℕ) × (target : List ℕ) × (page.public_key ≡ some owner)
    × (world.keys.of_base58 text ≡ some target)
    × IsHandover world loader calls owner target tx

module _ (world : World) (loader : Loader) (calls : AuthorityCalls) (text : List ℕ) (page : Page)
    (no_sent : page.sent ≡ []) (no_shown : page.shown ≡ []) where
  target-sent :
      (owner : List ℕ) (target : Option (List ℕ)) (c : Console)
      → page.public_key ≡ some owner
      → world.keys.of_base58 text ≡ target
      → All
          (IsOwnHandover world loader calls text page)
          (secure_target world loader calls owner target (c, page)).1.sent
  unfolding secure_target
  target-sent owner none c key text_of = rw no_sent tt
  target-sent owner (some target) c key text_of = rw (secure_end-sent _ _) (
      All-weaken _ (λ tx h. (owner, target, key, text_of, h))
        ((secure_body-Spec world loader calls owner target page.passkey).keeps page
          (rw no_sent tt, rw no_shown tt, initial)).0.0)

  wallet-sent :
      (key : Option (List ℕ)) (c : Console)
      → page.public_key ≡ key
      → All
          (IsOwnHandover world loader calls text page)
          (secure_wallet world loader calls text key (c, page)).1.sent
  unfolding secure_wallet
  wallet-sent none c e = rw no_sent tt
  wallet-sent (some owner) c e = elim (Bool-cases (ltb (length text) 32)) [
    | inl short ↦ rw short (rw no_sent tt)
    | inr long ↦ rw long (target-sent owner (world.keys.of_base58 text) c e refl)
  ]

-- From a page that has sent and shown nothing yet, handleAuthSecure sends only the registration of the
-- given program for the connected wallet together with the change of the upgrade authority of the program's
-- data account, which is the one that the program's own account names, to the derived address, and only after the chain named that wallet as the authority.
pub handle_auth_secure-IsHandover :
    (world : World) (loader : Loader) (calls : AuthorityCalls) (text : List ℕ) (c : Console)
    (page : Page)
    → page.sent ≡ []
    → page.shown ≡ []
    → All
        (IsOwnHandover world loader calls text page)
        (handle_auth_secure world loader calls text (c, page)).1.sent
unfolding handle_auth_secure
handle_auth_secure-IsHandover world loader calls text c page no_sent no_shown =
    elim (Bool-cases (c.running || c.busy)) [
      | inl held ↦ rw held (rw no_sent tt)
      | inr clear ↦ rw clear (
          wallet-sent world loader calls text page no_sent no_shown page.public_key
            (record c { running = true }) refl)
    ]
