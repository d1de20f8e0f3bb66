-- ===== src/Landing/Page/Secure/Lock.antt =====
-- handleAuthSecure of apps/landing/app/try/page.tsx: its lock, and what it sends.
use trana.Prelude.{ℕ, ◌≡◌, refl, List, Option, none, some, true}
use trana.Prelude.{false, ◌||◌, length, ltb, Bool-cases, inl, inr}
use trana.Prelude.Result.{Result, ok, err}
use trana.Landing.Page.{World, Page, Failure}
use trana.Landing.Page.Manage.{Loader}
use trana.Landing.Page.Secure.{
  AuthorityCalls, Console, Secured, other_authority, secured, secure_end, secure_target,
  secure_wallet, handle_auth_secure,
}

-- Neither flag is set.
abbrev pub IsFree : Console → Type 0
IsFree c = (c.running ≡ false) × (c.busy ≡ false)

secure_end-IsFree :
    (c : Console) (out : Result Failure Secured × Page) → IsFree (secure_end c out).0
unfolding secure_end
secure_end-IsFree c (ok other_authority, page) = (refl, refl)
secure_end-IsFree c (ok (secured signature), page) = (refl, refl)
secure_end-IsFree c (err e, page) = (refl, refl)

module _ (world : World) (loader : Loader) (calls : AuthorityCalls) where
  secure_target-IsFree :
      (owner : List ℕ) (target : Option (List ℕ)) (c : Console) (page : Page)
      → c.busy ≡ false
      → IsFree (secure_target world loader calls owner target (c, page)).0
  unfolding secure_target
  secure_target-IsFree owner none c page free = (refl, free)
  secure_target-IsFree owner (some target) c page free = secure_end-IsFree _ _

  secure_wallet-IsFree :
      (text : List ℕ) (key : Option (List ℕ)) (c : Console) (page : Page)
      → c.busy ≡ false
      → IsFree (secure_wallet world loader calls text key (c, page)).0
  unfolding secure_wallet
  secure_wallet-IsFree text none c page free = (refl, free)
  secure_wallet-IsFree text (some owner) c page free = elim (Bool-cases (ltb (length text) 32)) [
    | inl short ↦ rw short (refl, free)
    | inr long ↦ rw long (secure_target-IsFree owner (world.keys.of_base58 text) c page free)
  ]

  -- Whatever it is answered, a call of handleAuthSecure that starts with both flags clear ends with
  -- both flags clear, so that it can be called again.
  pub handle_auth_secure-IsFree :
      (text : List ℕ) (c : Console) (page : Page)
      → IsFree c
      → IsFree (handle_auth_secure world loader calls text (c, page)).0
  unfolding handle_auth_secure
  handle_auth_secure-IsFree text c page (idle, free) = elim (Bool-cases (c.running || c.busy)) [
    | inl held ↦ rw held (idle, free)
    | inr clear ↦
        rw clear (secure_wallet-IsFree text page.public_key (record c { running = true }) page free)
  ]
