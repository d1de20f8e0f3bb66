-- ===== src/React/Send/Delivery.antt =====
-- The send loop of packages/sdk/src/react/useTrana.ts.
use trana.Prelude.{ℕ, zero, suc, ◌+◌, ◌≤◌, ◌≡◌, ◌≢◌, ◌⊎◌, inl, inr, refl, ap, ◌∙◌, arith}
use trana.Prelude.{
  List, [], ◌∷◌, ◌++◌, Option, none, some, Bool, true, false, Bool-cases, Option-cases, ◌==◌,
}
use trana.Prelude.{All, length, take, drop}
use trana.Prelude.Result.{Result, ok, err}
use trana.React.Send.{
  Object, Built, legacy, versioned, SendError, transaction_expired, instruction_not_found, failed,
  thrown,
}
use trana.React.Send.{
  Answer, signature, exception, Network, index_of_ref, splice_proof, insert_proof, is_expired, Sent,
  ends, delivers, answered,
}
use trana.React.Send.{after_delivery, deliver_proven, deliver_built, built_on, attempts}

-- The proof stands right before an object with this identity; a compiled transaction is unconstrained.
abbrev pub IsPaired : (proof : List Object) → (ref : ℕ) → Built → Type 0
IsPaired proof ref (legacy objects) =
    (front : List Object) × (target : Object) × (back : List Object) × (objects
      ≡ front ++ (proof ++ (target ∷ back)))
    × (target.ref ≡ ref)
IsPaired proof ref (versioned message) = Unit {0}

-- Cutting at the index that was found.
cut_at_ref :
    (ref : ℕ) (objects : List Object) (idx : ℕ)
    → index_of_ref ref objects ≡ some idx
    → (target : Object) × (back : List Object) × (drop idx objects ≡ target ∷ back)
      × (target.ref ≡ ref)
unfolding index_of_ref
cut_at_ref ref [] idx h = cc
cut_at_ref ref (o ∷ objects) idx h = elim (Bool-cases (o.ref == ref)) [
  | inl same ↦
      let e : idx ≡ zero = let here = rw same at h in cc here in
      (o, objects, ap (λ t. drop t (o ∷ objects)) e, ground arith)
  | inr other ↦ elim (Option-cases (index_of_ref ref objects)) [
    | inl missing ↦ let absent = rw (missing) at (rw other at h) in cc absent
    | inr (i, found) ↦
        let (target, back, cut, same) = cut_at_ref ref objects i found in
        let e : idx ≡ suc i = let there = rw (found) at (rw other at h) in cc there in
        (target, back, ap (λ t. drop t (o ∷ objects)) e ∙ cut, same)
  ]
]

some_inj : {a b : List Object} → ◌≡◌ {A = Option (List Object)} (some a) (some b) → b ≡ a
some_inj e = cc

insert_proof-IsPaired :
    (proof : List Object) (ref : ℕ) (objects out : List Object)
    → insert_proof proof ref objects ≡ some out
    → IsPaired proof ref (legacy out)
unfolding insert_proof splice_proof
insert_proof-IsPaired proof ref objects out h = elim (Option-cases (index_of_ref ref objects)) [
  | inl missing ↦ let failed = rw (missing, splice_proof) at h in cc failed
  | inr (idx, found) ↦
      let (target, back, cut, same) = cut_at_ref ref objects idx found in
      let spliced = rw (found, splice_proof) at h in
      (
        take idx objects,
        target,
        back,
        some_inj spliced ∙ ap (λ t. take idx objects ++ (proof ++ t)) cut,
        same,
      )
]

-- What the loop promises with so many attempts left.
pub record IsDelivery (proof : List Object) (ref left : ℕ) (sent : Sent) : Type 0 where
  pub paired : All (IsPaired proof ref) sent.delivered
  pub few : length sent.delivered ≤ left
  pub never_expired : sent.result ≢ err transaction_expired

answered-not_expired : (answer : Answer) → answered answer ≢ err transaction_expired
answered-not_expired (signature s) e = cc
answered-not_expired (exception message) e = cc

module _ (proof : List Object) (ref left : ℕ) where
  ends-IsDelivery :
      (result : Result SendError (List ℕ))
      → result ≢ err transaction_expired
      → IsDelivery proof ref (suc left) (ends result)
  ends-IsDelivery result h = record { paired = tt; few = omega arith; never_expired = h }

  once-IsDelivery :
      (tx : Built) (result : Result SendError (List ℕ))
      → IsPaired proof ref tx
      → result ≢ err transaction_expired
      → IsDelivery proof ref (suc left) (delivers tx (ends result))
  once-IsDelivery tx result p h = record { paired = (p, tt); few = omega arith; never_expired = h }

  after_delivery-IsDelivery :
      (last : Bool) (next : Sent) (tx : Built) (answer : Answer)
      → IsPaired proof ref tx
      → (last ≡ true) ⊎ IsDelivery proof ref left next
      → IsDelivery proof ref (suc left) (after_delivery last next tx answer)
  unfolding after_delivery
  after_delivery-IsDelivery last next tx (signature s) p h = once-IsDelivery tx (ok s) p (λ e. cc)
  after_delivery-IsDelivery true next tx (exception message) p h =
      once-IsDelivery tx (err (failed message)) p (λ e. cc)
  after_delivery-IsDelivery false next tx (exception message) p (inl e) = cc
  after_delivery-IsDelivery false next tx (exception message) p (inr d) =
      elim (Bool-cases (is_expired message)) [
        | inl expired ↦ rw expired (record {
          paired = (p, d.paired);
          few = omega (arith, d.few);
          never_expired = d.never_expired;
        })
        | inr other ↦ rw other (once-IsDelivery tx (err (failed message)) p (λ e. cc))
      ]

  deliver_built-IsDelivery :
      (network : Network) (attempt : ℕ) (last : Bool) (next : Sent) (built : Option Built)
      → (last ≡ true) ⊎ IsDelivery proof ref left next
      → IsDelivery proof ref (suc left) (deliver_built network proof ref attempt last next built)
  unfolding deliver_built deliver_proven
  deliver_built-IsDelivery network attempt last next none h = ends-IsDelivery (err thrown) (λ e. cc)
  deliver_built-IsDelivery network attempt last next (some (versioned message)) h =
      once-IsDelivery (versioned message) (answered (network.deliver attempt (versioned message)))
        tt (answered-not_expired (network.deliver attempt (versioned message)))
  deliver_built-IsDelivery network attempt last next (some (legacy objects)) h =
      elim (Option-cases (insert_proof proof ref objects)) [
        | inl missing ↦
            rw (missing, deliver_proven) (ends-IsDelivery (err instruction_not_found) (λ e. cc))
        | inr (out, found) ↦
            rw (found, deliver_proven)
              (after_delivery-IsDelivery last next (legacy out)
                (network.deliver attempt (legacy out))
                (insert_proof-IsPaired proof ref objects out found) h)
      ]

-- With at least one attempt, every legacy transaction that is handed to the wallet has the proof right
-- before the guarded instruction, there are no more of them than attempts, and the call never ends in
-- the error that stands behind the loop.
pub attempts-IsDelivery :
    (network : Network) (proof : List Object) (ref left attempt : ℕ)
    → IsDelivery proof ref (suc left) (attempts network proof ref (suc left) attempt)
unfolding attempts
attempts-IsDelivery network proof ref zero attempt =
    deliver_built-IsDelivery proof ref zero network attempt true _
      (built_on network (network.blockhash attempt)) (inl refl)
attempts-IsDelivery network proof ref (suc left) attempt =
    deliver_built-IsDelivery proof ref (suc left) network attempt false _
      (built_on network (network.blockhash attempt))
      (inr (attempts-IsDelivery network proof ref left (attempt + 1)))
