-- ===== src/React/Watch/Ownership.antt =====
-- Whose registry the provider of packages/sdk/src/react/provider.tsx shows.
use mathlib.Core.Path.{subst}
use trana.Prelude.{
  ℕ, zero, suc, ◌≡◌, refl, sym, ap, ◌∙◌, List, [], ◌∷◌, Option, none, some, ◌⊎◌, inl, inr,
  get_elem?,
}
use trana.React.Registry.{RegistryState, fetched, on_account_change}
use trana.React.Watch.{
  Watch, Event, connects, answers, changes, fetch_result, set_fetched, run_effect, answered,
  changed, remove, step, steps,
}

-- A registry that is shown is that of the wallet; without a wallet none is shown.
abbrev pub Belongs : (wallet : Option (List ℕ)) → (registry : Option RegistryState) → Type 0
Belongs wallet none = Unit {0}
Belongs none (some r) = ⊥
Belongs (some key) (some r) = r.owner ≡ key

-- The chain answers a fetch, and the listener, with a registry of the wallet that was asked for, and
-- the fetch does not throw. An answer to no call is none.
abbrev pub IsTrueAnswer : Option (List ℕ) → Option (Option RegistryState) → Type 0
IsTrueAnswer none result = Unit {0}
IsTrueAnswer (some key) none = ⊥
IsTrueAnswer (some key) (some registry) = Belongs (some key) registry

-- What happens to a state is orderly: the wallet changes only while no fetch is under way, and the
-- chain tells the truth.
abbrev pub IsOrderly : Watch → Event → Type 0
IsOrderly w (connects wallet) = w.fetching ≡ []
IsOrderly w (answers i info) = IsTrueAnswer (get_elem? w.fetching i) (fetch_result info)
IsOrderly w (changes bytes) = Belongs w.listening (on_account_change bytes)

abbrev pub AreOrderly : Watch → List Event → Type 0
AreOrderly w [] = Unit {0}
AreOrderly w (e ∷ es) = IsOrderly w e × AreOrderly (step w e) es

-- Either nothing is under way and what is shown belongs to the wallet, or the one fetch under way is
-- for the wallet.
abbrev IsInStep : Watch → Type 0
IsInStep w =
    (w.listening ≡ w.wallet)
    × (((w.fetching ≡ []) × Belongs w.wallet w.registry)
        ⊎ ((key : List ℕ) × (w.wallet ≡ some key) × (w.fetching ≡ key ∷ [])))

run_effect-IsInStep :
    (wallet : Option (List ℕ)) (w : Watch) → w.fetching ≡ [] → IsInStep (run_effect wallet w)
unfolding run_effect
run_effect-IsInStep none w quiet = (refl, inl (quiet, tt))
run_effect-IsInStep (some key) w quiet = (refl, inr (key, refl, rw quiet refl))

set_fetched-IsInStep :
    (result : Option (Option RegistryState)) (key : List ℕ) (w : Watch)
    → IsTrueAnswer (some key) result
    → w.wallet ≡ some key
    → w.listening ≡ w.wallet
    → w.fetching ≡ []
    → IsInStep (set_fetched result w)
set_fetched-IsInStep none key w truth is_key listens quiet = absurd truth
set_fetched-IsInStep (some registry) key w truth is_key listens quiet =
    (listens, inl (quiet, subst (λ o. Belongs o registry) (sym is_key) truth))

only_one :
    (k key : List ℕ) (i : ℕ)
    → get_elem? (k ∷ []) i ≡ some key
    → (remove i (k ∷ []) ≡ []) × (k ≡ key)
only_one k key zero h = (refl, cc)
only_one k key (suc i) h = cc

answered-IsInStep :
    (i : ℕ) (info : Option (Option (List ℕ))) (o : Option (List ℕ)) (w : Watch)
    → get_elem? w.fetching i ≡ o
    → IsTrueAnswer o (fetch_result info)
    → IsInStep w
    → IsInStep (answered i info o w)
unfolding answered
answered-IsInStep i info none w at truth s = s
answered-IsInStep i info (some key) w at truth (listens, inl (quiet, shown)) =
    let nothing = rw quiet at at in cc
answered-IsInStep i info (some key) w at truth (listens, inr (k, is_k, one)) =
    let (gone, same_key) = only_one k key i (rw one at at) in
    set_fetched-IsInStep (fetch_result info) key (record w { fetching = remove i w.fetching }) truth
      (is_k ∙ ap some same_key) listens (ap (remove i) one ∙ gone)

changed-IsInStep :
    (bytes : List ℕ) (o : Option (List ℕ)) (w : Watch)
    → w.listening ≡ o
    → Belongs o (on_account_change bytes)
    → IsInStep w
    → IsInStep (changed bytes o w)
unfolding changed
changed-IsInStep bytes none w at truth s = s
changed-IsInStep bytes (some key) w at truth (listens, inl (quiet, shown)) = (
  listens,
  inl (quiet, subst (λ o. Belongs o (on_account_change bytes)) (sym at ∙ listens) truth),
)
changed-IsInStep bytes (some key) w at truth (listens, inr one) = (listens, inr one)

step-IsInStep : (w : Watch) (e : Event) → IsOrderly w e → IsInStep w → IsInStep (step w e)
unfolding step
step-IsInStep w (connects wallet) quiet s = run_effect-IsInStep wallet w quiet
step-IsInStep w (answers i info) truth s =
    answered-IsInStep i info (get_elem? w.fetching i) w refl truth s
step-IsInStep w (changes bytes) truth s = changed-IsInStep bytes w.listening w refl truth s

steps-IsInStep :
    (w : Watch) (es : List Event) → AreOrderly w es → IsInStep w → IsInStep (steps w es)
unfolding steps
steps-IsInStep w [] orderly s = s
steps-IsInStep w (e ∷ es) (now, later) s =
    steps-IsInStep (step w e) es later (step-IsInStep w e now s)

in_step-Belongs : (w : Watch) → IsInStep w → w.fetching ≡ [] → Belongs w.wallet w.registry
in_step-Belongs w (listens, inl (quiet, shown)) now = shown
in_step-Belongs w (listens, inr (key, is_key, one)) now = absurd (cc (one, now))

-- From a provider that shows its wallet's registry with no fetch under way: when the wallet changes
-- only while no fetch is under way, no fetch throws, and the chain answers with registries of the
-- wallets asked for, then whenever no fetch is under way the registry shown is that of the connected
-- wallet, and without a wallet none is shown.
pub steps-Belongs :
    (w : Watch) (es : List Event)
    → w.listening ≡ w.wallet
    → w.fetching ≡ []
    → Belongs w.wallet w.registry
    → AreOrderly w es
    → (steps w es).fetching ≡ []
    → Belongs (steps w es).wallet (steps w es).registry
steps-Belongs w es listens quiet shown orderly now =
    in_step-Belongs (steps w es) (steps-IsInStep w es orderly (listens, inl (quiet, shown))) now

-- The wallet changes while the fetch for the old one is under way, and that fetch is answered last:
-- whatever the new wallet is and its fetch found, nothing is under way any more and the registry shown
-- is that of the old wallet.
pub late_answer-shows_old :
    (old new old_account new_account : List ℕ) (r s : RegistryState)
    → fetched (some old_account) ≡ some (some r)
    → fetched (some new_account) ≡ some (some s)
    → (w : Watch) → w.fetching ≡ []
    → let after = steps w (
        connects (some old)
        ∷ connects (some new)
        ∷ answers 1 (some (some new_account))
        ∷ answers 0 (some (some old_account))
        ∷ []) in
      (after.wallet ≡ some new) × (after.fetching ≡ []) × (after.registry ≡ some r)
unfolding steps step run_effect answered
late_answer-shows_old old new old_account new_account r s old_found new_found w quiet =
    rw (quiet, new_found, old_found) (refl, refl, refl)
