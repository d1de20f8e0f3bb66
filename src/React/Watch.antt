-- ===== src/React/Watch.antt =====
-- packages/sdk/src/react/provider.tsx: the effect that keeps the registry in step with the wallet, as a
-- step per event: the wallet changes, a fetch is answered, the account that is listened to changes.
pub mod Ownership
use trana.Prelude.{ℕ, zero, suc, List, [], ◌∷◌, ◌++◌, Option, none, some, get_elem?}
use trana.React.Registry.{RegistryState, fetched, on_account_change}

-- `fetching` are the wallets whose fetch is not answered yet, in the order of the calls, and
-- `listening` the wallet whose account is subscribed to.
pub record Watch : Type 0 where
  pub wallet : Option (List ℕ)
  pub registry : Option RegistryState
  pub fetching : List (List ℕ)
  pub listening : Option (List ℕ)

abbrev pub fresh_watch : Watch
fresh_watch = record { wallet = none; registry = none; fetching = []; listening = none }

-- `answers i info` is the answer to the call at a place of `fetching`: the data of an account that may
-- be absent, or an exception.
pub data Event : Type 0 where
  connects : (wallet : Option (List ℕ)) → Event
  answers : (i : ℕ) → (info : Option (Option (List ℕ))) → Event
  changes : (bytes : List ℕ) → Event

abbrev pub remove {ℓ} : {A : Type ℓ} → ℕ → List A → List A
remove i [] = []
remove zero (x ∷ xs) = xs
remove (suc i) (x ∷ xs) = x ∷ remove i xs

-- The cleanup ends the old subscription; a fetch that is under way goes on.
unfoldable pub run_effect : Option (List ℕ) → Watch → Watch
run_effect none w = record w { wallet = none; registry = none; listening = none }
run_effect (some key) w = record w {
  wallet = some key;
  fetching = w.fetching ++ (key ∷ []);
  listening = some key;
}

abbrev pub fetch_result : Option (Option (List ℕ)) → Option (Option RegistryState)
fetch_result none = none
fetch_result (some account) = fetched account

-- `.then(setRegistry)`: after an exception nothing is set.
abbrev pub set_fetched : Option (Option RegistryState) → Watch → Watch
set_fetched none w = w
set_fetched (some state) w = record w { registry = state }

-- The registry is set whatever the wallet is by now.
unfoldable pub answered : ℕ → Option (Option (List ℕ)) → Option (List ℕ) → Watch → Watch
answered i info none w = w
answered i info (some key) w =
    set_fetched (fetch_result info) (record w { fetching = remove i w.fetching })

unfoldable pub changed : List ℕ → Option (List ℕ) → Watch → Watch
changed bytes none w = w
changed bytes (some key) w = record w { registry = on_account_change bytes }

unfoldable pub step : Watch → Event → Watch
step w (connects wallet) = run_effect wallet w
step w (answers i info) = answered i info (get_elem? w.fetching i) w
step w (changes bytes) = changed bytes w.listening w

unfoldable pub steps : Watch → List Event → Watch
steps w [] = w
steps w (e ∷ es) = steps (step w e) es
