-- ===== src/Landing/Page/Runs.antt =====
-- A logic for the handlers of apps/landing/app/try/page.tsx: what a piece of a handler keeps of the
-- transactions sent and the results shown, and what holds of the value it gives.
use mathlib.Core.Path.{subst}
use trana.Prelude.{ℕ, ◌≡◌, refl, List, [], Option, some, All, All-weaken}
use trana.Prelude.Result.{Result, ok, err, or_throw-eq-ok}
use trana.Types.{PasskeyHandle}
use trana.Landing.Page.{
  World, Page, Transaction, Failure, TxResult, Run, continue, ◌>>=◌, ◌>>◌, lift, return, ask,
  try_ask, show, store_passkey, stored_passkey, send, try_send, caught_end, failed, thrown,
}
use trana.Landing.Page.Guards.{Refusal, silent, connect, told, guarded, refused}

-- What may be shown, and what may be stored as the credential.
pub record Rules : Type 1 where
  pub shown : TxResult → Type 0
  pub stored : Option PasskeyHandle → Type 0

module _ (S : Transaction → Type 0) (R : Rules) where
  -- Every transaction sent, every result shown and the stored credential is a permitted one.
  abbrev pub Inv : Page → Type 0
  Inv page = All S page.sent × All R.shown page.shown × R.stored page.passkey

  -- What a run keeps of a page, and what holds of its value.
  pub record Spec {A : Type 0} (Q : A → Type 0) (run : Run A) : Type 0 where
    pub keeps : (page : Page) → Inv page → Inv (run page).1 × ((a : A) → (run page).0 ≡ ok a → Q a)

  continue-keeps :
      {A B : Type 0} (Q : A → Type 0) (T : B → Type 0) (out : Result Failure A × Page)
      (next : A → Run B)
      → Inv out.1
      → ((a : A) → out.0 ≡ ok a → Q a)
      → ((a : A) → Q a → Spec T (next a))
      → Inv (continue out next).1 × ((b : B) → (continue out next).0 ≡ ok b → T b)
  continue-keeps Q T (ok a, page) next inv post onward = (onward a (post a refl)).keeps page inv
  continue-keeps Q T (err e, page) next inv post onward = (inv, λ b h. cc)

  pub >>=-Spec :
      {A B : Type 0} {Q : A → Type 0} {T : B → Type 0} {run : Run A} {next : A → Run B}
      → Spec Q run
      → ((a : A) → Q a → Spec T (next a))
      → Spec T (run >>= next)
  unfolding ◌>>=◌
  >>=-Spec {A} {B} {Q} {T} {run} {next} first onward = record {
    keeps = λ page inv.
        let (inv', post) = first.keeps page inv in
        continue-keeps Q T (run page) next inv' post onward;
  }

  pub >>-Spec :
      {B : Type 0} {Q : Unit {0} → Type 0} {T : B → Type 0} {run : Run (Unit {0})} {rest : Run B}
      → Spec Q run
      → Spec T rest
      → Spec T (run >> rest)
  unfolding ◌>>◌
  >>-Spec first onward = >>=-Spec first (λ a q. onward)

  pub after :
      {B : Type 0} {Q : Unit {0} → Type 0} {T : B → Type 0} {run : Run (Unit {0})} {rest : Run B}
      → Spec Q run
      → ((u : Unit {0}) → Q u → Spec T rest)
      → Spec T (run >> rest)
  unfolding ◌>>◌
  after first onward = >>=-Spec first onward

  pub weaken :
      {A : Type 0} {Q T : A → Type 0} {run : Run A}
      → ((a : A) → Q a → T a)
      → Spec Q run
      → Spec T run
  weaken into spec = record {
    keeps = λ page inv. let (inv', post) = spec.keeps page inv in (inv', λ a h. into a (post a h));
  }

  pub lift-Spec : {A : Type 0} (result : Result Failure A) → Spec (λ a. result ≡ ok a) (lift result)
  unfolding lift
  lift-Spec result = record { keeps = λ page inv. (inv, λ a h. h) }

  same_value : {A : Type 0} {a b : A} (out : Result Failure A) → out ≡ ok a → out ≡ ok b → a ≡ b
  same_value out g h = cc

  pub return-Spec : {A : Type 0} {Q : A → Type 0} (a : A) → Q a → Spec Q (return a)
  unfolding return
  return-Spec {Q = Q} a q = record {
    keeps = λ page inv. (inv, λ b h. subst Q (same_value (ok a) refl h) q);
  }

  pub ask-Spec :
      {A : Type 0} (answer : ℕ → Option A) → Spec (λ a. (t : ℕ) × (answer t ≡ some a)) (ask answer)
  unfolding ask
  ask-Spec answer = record {
    keeps = λ page inv. (inv, λ a h. (page.moment, or_throw-eq-ok (answer page.moment) thrown h));
  }

  pub try_ask-Spec :
      {A : Type 0} (answer : ℕ → Option A) → Spec (λ a. (t : ℕ) × (answer t ≡ a)) (try_ask answer)
  unfolding try_ask
  try_ask-Spec answer = record { keeps = λ page inv. (inv, λ a h. (page.moment, cc)) }

  pub show-Spec : (result : TxResult) → R.shown result → Spec (λ finished. Unit {0}) (show result)
  unfolding show
  show-Spec result r = record {
    keeps = λ page inv. let (sent, shown, stored) = inv in ((sent, (r, shown), stored), λ a h. tt);
  }

  pub store_passkey-Spec :
      (handle : PasskeyHandle)
      → R.stored (some handle)
      → Spec (λ finished. Unit {0}) (store_passkey handle)
  unfolding store_passkey
  store_passkey-Spec handle fits = record {
    keeps = λ page inv. let (sent, shown, stored) = inv in ((sent, shown, fits), λ a h. tt);
  }

  pub stored_passkey-Spec : Spec R.stored stored_passkey
  unfolding stored_passkey
  stored_passkey-Spec = record {
    keeps = λ page inv. (inv, λ a h. subst R.stored (same_value (ok page.passkey) refl h) inv.2);
  }

  pub send-Spec : (world : World) (tx : Transaction) → S tx → Spec (λ sig. Unit {0}) (send world tx)
  unfolding send
  send-Spec world tx s = record {
    keeps = λ page inv. let (sent, shown, stored) = inv in (((s, sent), shown, stored), λ a h. tt);
  }

  pub try_send-Spec :
      (world : World) (tx : Transaction) → S tx → Spec (λ sig. Unit {0}) (try_send world tx)
  unfolding try_send
  try_send-Spec world tx s = record {
    keeps = λ page inv. let (sent, shown, stored) = inv in (((s, sent), shown, stored), λ a h. tt);
  }

  caught_end-Inv :
      (out : Result Failure (Unit {0}) × Page)
      → ((e : Failure) → R.shown (failed e))
      → Inv out.1
      → Inv (caught_end out)
  unfolding caught_end
  caught_end-Inv (ok finished, page) fails inv = inv
  caught_end-Inv (err e, page) fails (sent, shown, stored) = (sent, (fails e, shown), stored)

  -- A handler keeps what its body keeps, behind its guard.
  guarded-Inv :
      (page : Page) (out : Result Refusal (List ℕ)) (body : List ℕ → Run (Unit {0}))
      → ((e : Failure) → R.shown (failed e))
      → ((owner : List ℕ) → out ≡ ok owner → Spec (λ finished. Unit {0}) (body owner))
      → Inv page
      → Inv (guarded page out body)
  unfolding refused
  guarded-Inv page (ok owner) body fails body_keeps inv =
      caught_end-Inv (body owner page) fails ((body_keeps owner refl).keeps page inv).0
  guarded-Inv page (err silent) body fails body_keeps inv = inv
  guarded-Inv page (err connect) body fails body_keeps inv = inv
  guarded-Inv page (err (told e)) body fails body_keeps (sent, shown, stored) =
      (sent, (fails e, shown), stored)

same_owner : {a b : List ℕ} (out : Result Refusal (List ℕ)) → out ≡ ok a → out ≡ ok b → a ≡ b
same_owner out g h = cc

no_owner : {e : Refusal} {b : List ℕ} (out : Result Refusal (List ℕ)) → out ≡ err e → out ≡ ok b → ⊥
no_owner out g h = cc

-- A handler that starts with nothing sent or shown sends only what the guard lets through for.
pub from_guard :
    (S : List ℕ → Transaction → Type 0) (R : TxResult → Type 0)
    (K : List ℕ → Option PasskeyHandle → Type 0) (page : Page) (out : Result Refusal (List ℕ))
    (body : List ℕ → Run (Unit {0}))
    → ((e : Failure) → R (failed e))
    → ((owner : List ℕ) → K owner page.passkey)
    → ((owner : List ℕ)
        → Spec
            (S owner)
            (record { shown = R; stored = K owner })
            (λ finished. Unit {0})
            (body owner))
    → page.sent ≡ []
    → page.shown ≡ []
    → All (λ tx. (owner : List ℕ) × (out ≡ ok owner) × S owner tx) (guarded page out body).sent
      × All R (guarded page out body).shown
from_guard S R K page (err r) body fails starts keeps no_sent no_shown =
    let (sent, shown, stored) =
      guarded-Inv _ (record { shown = R; stored = λ h. Unit {0} }) page (err r) body fails
        (λ owner h. absurd (no_owner (err r) refl h)) (rw no_sent tt, rw no_shown tt, tt) in
    (sent, shown)
from_guard S R K page (ok owner) body fails starts keeps no_sent no_shown =
    let (sent, shown, stored) =
      guarded-Inv (S owner) (record { shown = R; stored = K owner }) page (ok owner) body fails
        (λ o h.
          subst
            (λ o.
              Spec (S owner) (record { shown = R; stored = K owner }) (λ finished. Unit {0})
                (body o))
            (same_owner (ok owner) refl h) (keeps owner))
        (rw no_sent tt, rw no_shown tt, starts owner) in
    (All-weaken _ (λ tx s. (owner, refl, s)) sent, shown)
