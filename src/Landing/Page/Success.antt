-- ===== src/Landing/Page/Success.antt =====
-- handleDeposit of apps/landing/app/try/page.tsx when everything it calls answers.
use trana.Prelude.{ℕ, ◌≡◌, refl, List, ◌∷◌, some, Bool}
use trana.Prelude.Result.{ok}
use trana.Landing.Vault.{
  PoolState, UserDepositState, fetch_pool_state, fetch_user_deposit, get_user_deposit_pda,
}
use trana.Landing.Page.{
  World, Page, ◌>>=◌, ◌>>◌, return, ask, show, send, caught_end, pending, done, sending,
}
use trana.Landing.Page.Guards.{deposit_guard}
use trana.Landing.Page.Steps.{prepared, set_pool, refresh_pool}
use trana.Landing.Page.Withdraw.{deposit_body, handle_deposit}

-- What answers at every moment, with one signature for all that is sent.
pub record Answers (world : World) (owner signature : List ℕ) : Type 0 where
  pub blockhash : List ℕ
  pub pool : PoolState
  pub deposit : UserDepositState
  pub has_blockhash : (t : ℕ) → world.latest_blockhash t ≡ some blockhash
  pub has_pool : (t : ℕ) → fetch_pool_state (world.connection t) world.demo_pool ≡ some pool
  pub has_deposit :
      (t : ℕ)
      → fetch_user_deposit
          (world.connection t)
          (get_user_deposit_pda world.addresses world.programs world.demo_pool owner)
        ≡ some deposit
  pub has_signature : (t : ℕ) (tx : _) → world.send_transaction t tx ≡ some signature

-- handleDeposit shows a success for a deposit that its guard lets through whenever the calls answer,
-- also when the confirmation says that the transaction failed on chain.
pub handle_deposit-shows_success :
    (world : World) (lamports : ℕ) (page : Page) (owner signature : List ℕ) (fine : Bool)
    → deposit_guard page lamports ≡ ok owner
    → (answers : Answers world owner signature)
    → ((t : ℕ) → world.confirm t signature answers.blockhash ≡ some fine)
    → (handle_deposit world lamports page).shown
      ≡ done (some signature) ∷ pending sending ∷ page.shown
unfolding handle_deposit deposit_body prepared refresh_pool set_pool ask send show return ◌>>=◌ ◌>>◌
    caught_end
handle_deposit-shows_success world lamports page owner signature fine guarded answers confirmed =
    rw guarded (rw (answers.has_blockhash, answers.has_signature, confirmed, answers.has_pool) refl)
