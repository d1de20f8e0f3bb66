-- ===== src/Landing/Page/Kept.antt =====
-- The shared steps of apps/landing/app/try/page.tsx in the logic of Landing.Page.Runs.
use trana.Prelude.{ℕ, ◌≡◌, refl, ap, ◌∙◌, List, [], ◌∷◌, Option, none, some, Bool, true, false}
use trana.Prelude.{Bool-cases, inl, inr}
use trana.Prelude.Result.{Result, ok, err, guard, or_throw-eq-ok}
use trana.Types.{Instruction, PasskeyHandle}
use trana.Landing.Vault.{Account, build_register_passkey_ix}
use trana.Landing.Page.{
  World, Transaction, TxResult, Stage, Failure, Run, show, pending, done, SignatureStatus, Recent,
  registering, registration_failed,
}
use trana.Landing.Page.Steps.{
  prepared, set_pool, refresh_pool, refresh_deposit, refresh, create_passkey, register_credential,
  restored, ensure_registry, is_settled, short_addr, value_of,
}
use trana.Webauthn.{register_passkey}
use trana.Landing.Registry.{fetch_first_passkey}
use trana.Bytes.{slice}
use trana.Landing.Page.{thrown, program_not_found}
use trana.Landing.Page.Guards.{is_true}
use trana.Landing.Page.Withdraw.{confirmed_or_status, is_fresh}
use trana.Landing.Page.Manage.{program_data}
use trana.Landing.Page.Runs.{
  Rules, Spec, >>=-Spec, >>-Spec, weaken, lift-Spec, return-Spec, ask-Spec, show-Spec,
  store_passkey-Spec, send-Spec,
}

-- What backs a report of success: a confirmation without an error, a status that is confirmed or
-- finalized without one, or the latest signature of an address, without one and fresh.
pub data IsSettled (world : World) (signature : List ℕ) : Type 0 where
  by_confirmation :
      (t : ℕ) (blockhash : List ℕ)
      → world.confirm t signature blockhash ≡ some true
      → IsSettled world signature
  by_status :
      (t : ℕ) (status : Option SignatureStatus)
      → world.status t signature ≡ some status
      → is_settled status ≡ true
      → IsSettled world signature
  by_recent :
      (t u : ℕ) (address : List ℕ) (r : Recent)
      → world.recent t address ≡ some (some r)
      → r.signature ≡ signature
      → is_fresh (world.now_ms u) r ≡ true
      → IsSettled world signature

-- A shown result is honest when a success with a signature is backed.
abbrev pub IsHonest : World → TxResult → Type 0
IsHonest world (done (some signature)) = IsSettled world signature
IsHonest world result = Unit {0}

-- A credential that the browser made for the owner.
abbrev pub IsCreated : World → (owner : List ℕ) → PasskeyHandle → Type 0
IsCreated world owner handle =
    (t : ℕ) × (value_of (
        register_passkey (world.navigator t) (world.random_32 t) world.rp_id owner
          (short_addr (world.keys.to_base58 owner)))
      ≡ some handle)

-- The first credential of the owner's registry, if it has one.
abbrev pub IsFirst : World → (owner : List ℕ) → Option PasskeyHandle → Type 0
IsFirst world owner first =
    (t : ℕ) × (fetch_first_passkey world.addresses world.programs (world.connection t) owner
      ≡ some first)

-- What the page can have stored: what it had at the start, the first credential of the registry, or one
-- that the browser made for the owner.
pub data IsStored (world : World) (owner : List ℕ) (start : Option PasskeyHandle)
    : Option PasskeyHandle → Type 0 where
  initial : IsStored world owner start start
  on_chain :
      (handle : PasskeyHandle)
      → IsFirst world owner (some handle)
      → IsStored world owner start (some handle)
  created :
      (handle : PasskeyHandle)
      → IsCreated world owner handle
      → IsStored world owner start (some handle)

-- The address of a program's data: bytes 4 to 36 of the program's account.
abbrev pub IsProgramData : World → (target address : List ℕ) → Type 0
IsProgramData world target address =
    (t : ℕ) × (a : Account) × ((world.connection t).account_info target ≡ some (some a))
    × (world.addresses.of_bytes (slice a.contents 4 36) ≡ some address)

abbrev pub rules : World → (owner : List ℕ) → (start : Option PasskeyHandle) → Rules
rules world owner start = record { shown = IsHonest world; stored = IsStored world owner start }

-- A transaction that registers a new credential of the owner, and nothing else.
pub record IsRegistration (world : World) (owner : List ℕ) (tx : Transaction) : Type 0 where
  pub handle : PasskeyHandle
  pub was_created : IsCreated world owner handle
  pub at : ℕ
  pub ix : Instruction
  pub built :
      build_register_passkey_ix world.addresses world.programs owner
        (world.connection at)
        handle.pubkey_bytes
        handle.credential_id
      ≡ some ix
  pub whole : tx.instructions ≡ ix ∷ []

pub err_not_ok :
    {A : Type 0} {e : Failure} {a : A} (out : Result Failure A) → out ≡ err e → out ≡ ok a → ⊥
err_not_ok out g h = cc

pub is_true-eq : (o : Option Bool) → is_true o ≡ true → o ≡ some true
is_true-eq none h = cc
is_true-eq (some b) h = cc

pub guard_true :
    (condition : Bool) (e : Failure) {u : Unit {0}} → guard condition e ≡ ok u → condition ≡ true
guard_true true e h = refl
guard_true false e h = cc

module _ (S : Transaction → Type 0) (world : World) (owner : List ℕ)
    (start : Option PasskeyHandle) where
  pub prepared-Spec :
      (instructions : List Instruction)
      → Spec S
          (rules world owner start)
          (λ tx. (tx.instructions ≡ instructions) × (tx.fee_payer ≡ owner))
          (prepared world owner instructions)
  unfolding prepared
  prepared-Spec instructions =
      >>=-Spec S (rules world owner start) (ask-Spec S (rules world owner start) _)
        λ blockhash q. return-Spec S (rules world owner start) _ (refl, refl)

  pub program_data-Spec :
      (target : List ℕ)
      → Spec S (rules world owner start) (IsProgramData world target) (program_data world target)
  unfolding program_data
  program_data-Spec target =
      >>=-Spec S (rules world owner start) (ask-Spec S (rules world owner start) _) λ info q1.
        >>=-Spec S (rules world owner start) (lift-Spec S (rules world owner start) _) λ account q2.
          weaken S (rules world owner start)
            (λ a h. (
              q1.0,
              account,
              q1.1 ∙ ap some (or_throw-eq-ok info program_not_found q2),
              or_throw-eq-ok _ thrown h,
            ))
            (lift-Spec S (rules world owner start) _)

  refresh_pool-Spec : Spec S (rules world owner start) (λ finished. Unit {0}) (refresh_pool world)
  unfolding refresh_pool set_pool
  refresh_pool-Spec =
      >>=-Spec S (rules world owner start) (ask-Spec S (rules world owner start) _)
        λ state q. record { keeps = λ page inv. (inv, λ a h. tt) }

  pub refresh_deposit-Spec :
      Spec S (rules world owner start) (λ finished. Unit {0}) (refresh_deposit world owner)
  unfolding refresh_deposit
  refresh_deposit-Spec =
      >>=-Spec S (rules world owner start) (ask-Spec S (rules world owner start) _)
        λ deposit q. record { keeps = λ page inv. (inv, λ a h. tt) }

  pub refresh-Spec : Spec S (rules world owner start) (λ finished. Unit {0}) (refresh world owner)
  unfolding refresh
  refresh-Spec = >>-Spec S (rules world owner start) refresh_pool-Spec refresh_deposit-Spec

  pub pending-Spec :
      (stage : Stage)
      → Spec S (rules world owner start) (λ finished. Unit {0}) (show (pending stage))
  pending-Spec stage = show-Spec S (rules world owner start) (pending stage) tt

  -- A signature that came back from here is backed.
  pub confirmed_or_status-Spec :
      (signature : List ℕ) (otherwise : Failure) (fine : Bool)
      → (fine ≡ true → IsSettled world signature)
      → Spec S
          (rules world owner start)
          (IsSettled world)
          (confirmed_or_status world signature otherwise fine)
  unfolding confirmed_or_status
  confirmed_or_status-Spec signature otherwise true backed =
      return-Spec S (rules world owner start) signature (backed refl)
  confirmed_or_status-Spec signature otherwise false backed =
      >>=-Spec S (rules world owner start) (ask-Spec S (rules world owner start) _) λ status q.
        elim (Bool-cases (is_settled status)) [
          | inl fine ↦
              rw fine
                (return-Spec S (rules world owner start) signature (by_status q.0 status q.1 fine))
          | inr not_fine ↦ rw not_fine (
              weaken S (rules world owner start) (λ a h. absurd (err_not_ok (err otherwise) refl h))
                (lift-Spec S (rules world owner start) (err otherwise)))
        ]

  module _ (registers : (tx : Transaction) → IsRegistration world owner tx → S tx) where
    pub register_credential-Spec :
        Spec S (rules world owner start) (λ fine. Unit {0}) (register_credential world owner)
    unfolding register_credential create_passkey
    register_credential-Spec =
        >>=-Spec S (rules world owner start) (ask-Spec S (rules world owner start) _) λ cred q1.
          >>-Spec S (rules world owner start)
            (store_passkey-Spec S (rules world owner start) cred (created cred q1))
            (>>=-Spec S (rules world owner start) (ask-Spec S (rules world owner start) _) λ ix q2.
              >>=-Spec S (rules world owner start) (prepared-Spec (ix ∷ [])) λ tx q3.
                >>=-Spec S (rules world owner start)
                  (send-Spec S (rules world owner start) world tx (
                    registers tx (record {
                      handle = cred;
                      was_created = q1;
                      at = q2.0;
                      ix = ix;
                      built = q2.1;
                      whole = q3.0;
                    })))
                  λ sig q4.
                    weaken S (rules world owner start) (λ a h. tt)
                      (ask-Spec S (rules world owner start) _))

    restored-Spec :
        (handle : Option PasskeyHandle)
        → IsFirst world owner handle
        → Spec S (rules world owner start) (λ finished. Unit {0}) (restored handle)
    unfolding restored
    restored-Spec none q = return-Spec S (rules world owner start) tt tt
    restored-Spec (some handle) q =
        store_passkey-Spec S (rules world owner start) handle (on_chain handle q)

    pub ensure_registry-Spec :
        (announce : Run (Unit {0})) (info : Option Account)
        → Spec S (rules world owner start) (λ finished. Unit {0}) announce
        → Spec S
            (rules world owner start)
            (λ finished. Unit {0})
            (ensure_registry world owner announce info)
    unfolding ensure_registry
    ensure_registry-Spec announce none announced =
        >>-Spec S (rules world owner start) (pending-Spec registering) (
          >>=-Spec S (rules world owner start) register_credential-Spec λ fine q1.
            >>-Spec S (rules world owner start)
              (lift-Spec S (rules world owner start) (guard fine registration_failed)) announced)
    ensure_registry-Spec announce (some account) announced =
        >>=-Spec S (rules world owner start) (ask-Spec S (rules world owner start) _)
          λ first q. restored-Spec first q
