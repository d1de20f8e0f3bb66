-- ===== src/Landing/Page/Coverage.antt =====
-- The guard of handleWithdraw of apps/landing/app/try/page.tsx: what it lets through is covered.
use trana.Prelude.{ℕ, ◌≤◌, ◌<◌, ◌≡◌, refl, ◌∙◌, arith, List, Option, none, some, Bool, true, false}
use trana.Prelude.{ltb, leb, ltb→lt, leb→le}
use trana.Prelude.Result.{ok, guard, or_throw, or_throw-eq-ok, >>=-eq-ok}
use trana.Landing.Vault.{UserDepositState}
use trana.Landing.Page.{Page, pool_missing, nothing_to_withdraw, deposit_too_small, pool_too_small}
use trana.Landing.Page.Guards.{
  Refusal, silent, connect, told, held, covers, withdraw_guard, is_true,
}

-- What the page knew when it let a withdrawal through.
pub record IsCovered (page : Page) (lamports : ℕ) (owner : List ℕ) : Type 0 where
  pub deposit : UserDepositState
  pub positive : 0 < lamports
  pub wallet : page.public_key ≡ some owner
  pub held : page.user_deposit ≡ some deposit
  pub enough : lamports ≤ deposit.balance
  pub pool : (p : ℕ) → page.pool_lamports ≡ some p → lamports ≤ p

guard-eq-ok :
    (condition : Bool) (e : Refusal) {u : Unit {0}} → guard condition e ≡ ok u → condition ≡ true
guard-eq-ok true e h = refl
guard-eq-ok false e h = cc

held-eq : (o : Option UserDepositState) (d : UserDepositState) → held o ≡ some d → o ≡ some d
held-eq none d h = cc
held-eq (some c) d h = ground arith

covers-eq :
    (o : Option ℕ) (lamports : ℕ) → covers o lamports ≡ true → (p : ℕ) → o ≡ some p → lamports ≤ p
covers-eq none lamports h p e = cc
covers-eq (some q) lamports h p e = ground arith

pub withdraw_guard-IsCovered :
    (page : Page) (lamports : ℕ) (owner : List ℕ)
    → withdraw_guard page lamports ≡ ok owner
    → IsCovered page lamports owner
unfolding withdraw_guard
withdraw_guard-IsCovered page lamports owner h =
    let (_, positive, h1) = >>=-eq-ok (guard (ltb 0 lamports) silent) _ h in
    let (key, wallet, h2) = >>=-eq-ok (or_throw page.public_key connect) _ h1 in
    let (_, _, h3) = >>=-eq-ok (guard (is_true page.pool_exists) (told pool_missing)) _ h2 in
    let (d, has, h4) =
      >>=-eq-ok (or_throw (held page.user_deposit) (told nothing_to_withdraw)) _ h3 in
    let (_, enough, h5) =
      >>=-eq-ok (guard (leb lamports d.balance) (told deposit_too_small)) _ h4 in
    let (_, pool, h6) =
      >>=-eq-ok (guard (covers page.pool_lamports lamports) (told pool_too_small)) _ h5 in
    record {
      deposit = d;
      positive = ltb→lt 0 lamports (guard-eq-ok _ silent positive);
      wallet = or_throw-eq-ok page.public_key connect wallet ∙ cc;
      held = held-eq page.user_deposit d (or_throw-eq-ok _ (told nothing_to_withdraw) has);
      enough = leb→le lamports d.balance (guard-eq-ok _ (told deposit_too_small) enough);
      pool = covers-eq page.pool_lamports lamports (guard-eq-ok _ (told pool_too_small) pool);
    }
