-- ===== src/Landing/Vault/Deposits.antt =====
-- fetchUserDeposit of apps/landing/lib/vault.ts against the account of
-- programs/trana_test_vault/src/state.rs.
use trana.Prelude.{ℕ, ◌+◌, ◌-◌, ◌^◌, ◌≤◌, ◌<◌, ◌≡◌, refl, ap, ◌∙◌, arith, List, ◌++◌, append_assoc}
use trana.Prelude.{none, some, true, length, length-append, le→not_ltb}
use trana.Bytes.{le_bytes}
use trana.Bytes.Endian.{length-le_bytes}
use trana.React.Registry.{uint_at}
use trana.React.Registry.Fields.{uint_at-le_bytes, uint_at-past}
use trana.Landing.Vault.{Account, ℤ, pos, negsuc, signed_64, UserDepositState, read_deposit}

-- The two's complement of an i64.
abbrev pub unsigned_64 : ℤ → ℕ
unsigned_64 (pos n) = n
unsigned_64 (negsuc n) = 2 ^ 64 - 1 - n

abbrev pub IsInt64 : ℤ → Type 0
IsInt64 (pos n) = n < 2 ^ 63
IsInt64 (negsuc n) = n < 2 ^ 63

signed_64-unsigned_64 : (z : ℤ) → IsInt64 z → signed_64 (unsigned_64 z) ≡ z
unfolding signed_64
signed_64-unsigned_64 (pos n) h = ground arith
signed_64-unsigned_64 (negsuc n) h =
    rw (le→not_ltb (2 ^ 63) (2 ^ 64 - 1 - n) (omega arith)) (ap negsuc (omega arith))

unsigned_64-bound : (z : ℤ) → IsInt64 z → unsigned_64 z < 2 ^ 64
unsigned_64-bound (pos n) h = omega arith
unsigned_64-bound (negsuc n) h = omega arith

-- The account: the discriminator, the pool, the user, the four numbers, and the bump.
abbrev pub deposit_bytes : (disc pool user : List ℕ) → UserDepositState → (back : List ℕ) → List ℕ
deposit_bytes disc pool user s back =
    disc
    ++ (pool
        ++ (user
            ++ (le_bytes 8 s.balance
                ++ (le_bytes 8 s.last_withdraw_slot
                    ++ (le_bytes 8 s.window_withdrawn
                        ++ (le_bytes 8 (unsigned_64 s.last_withdraw_at) ++ back))))))

read_of :
    (a : Account) (b s w t : ℕ)
    → 104 ≤ length a.contents
    → uint_at a.contents 72 8 ≡ some b
    → uint_at a.contents 80 8 ≡ some s
    → uint_at a.contents 88 8 ≡ some w
    → uint_at a.contents 96 8 ≡ some t
    → read_deposit (some a)
      ≡ some (record {
        balance = b;
        exists_on_chain = true;
        window_withdrawn = w;
        last_withdraw_at = signed_64 t;
        last_withdraw_slot = s;
      })
unfolding read_deposit
read_of a b s w t long e f g h =
    rw (le→not_ltb 97 (length a.contents) (omega arith)) (rw e (rw f (rw g (rw h refl))))

-- From the account of the vault program the site reads back the balance, the slot, the amount
-- withdrawn in the window and the signed time of a deposit, for numbers in the range of their types.
pub read_deposit-deposit_bytes :
    (lamports : ℕ) (disc pool user back : List ℕ) (s : UserDepositState)
    → length disc ≡ 8
    → length pool ≡ 32
    → length user ≡ 32
    → s.exists_on_chain ≡ true
    → s.balance < 2 ^ 64
    → s.last_withdraw_slot < 2 ^ 64
    → s.window_withdrawn < 2 ^ 64
    → IsInt64 s.last_withdraw_at
    → read_deposit
        (some (record { lamports = lamports; contents = deposit_bytes disc pool user s back }))
      ≡ some s
read_deposit-deposit_bytes lamports disc pool user back s disc_8 pool_32 user_32 there balance slot
      window at =
    read_of (record { lamports = lamports; contents = d }) s.balance s.last_withdraw_slot
      s.window_withdrawn t long (uint_at-le_bytes d f1 _ 72 8 s.balance split1 length1 balance)
      (uint_at-le_bytes d f2 _ 80 8 s.last_withdraw_slot split2 length2 slot)
      (uint_at-le_bytes d f3 _ 88 8 s.window_withdrawn split3 length3 window)
      (uint_at-le_bytes d f4 back 96 8 t split4 length4 (unsigned_64-bound s.last_withdraw_at at))
    ∙ rw (signed_64-unsigned_64 s.last_withdraw_at at, ← there) refl
  where
    d : List ℕ
    d = deposit_bytes disc pool user s back

    t : ℕ
    t = unsigned_64 s.last_withdraw_at

    f1 : List ℕ
    f1 = disc ++ (pool ++ user)

    f2 : List ℕ
    f2 = f1 ++ le_bytes 8 s.balance

    f3 : List ℕ
    f3 = f2 ++ le_bytes 8 s.last_withdraw_slot

    f4 : List ℕ
    f4 = f3 ++ le_bytes 8 s.window_withdrawn

    split1 :
        d
        ≡ f1
          ++ (le_bytes 8 s.balance
              ++ (le_bytes 8 s.last_withdraw_slot
                  ++ (le_bytes 8 s.window_withdrawn ++ (le_bytes 8 t ++ back))))
    split1 = simp (append_assoc)

    split2 :
        d
        ≡ f2
          ++ (le_bytes 8 s.last_withdraw_slot
              ++ (le_bytes 8 s.window_withdrawn ++ (le_bytes 8 t ++ back)))
    split2 = simp (append_assoc)

    split3 : d ≡ f3 ++ (le_bytes 8 s.window_withdrawn ++ (le_bytes 8 t ++ back))
    split3 = simp (append_assoc)

    split4 : d ≡ f4 ++ (le_bytes 8 t ++ back)
    split4 = simp (append_assoc)

    length1 : length f1 ≡ 72
    length1 = omega (arith, length-append disc (pool ++ user), length-append pool user)

    longer : (f : List ℕ) (n : ℕ) → length (f ++ le_bytes 8 n) ≡ length f + 8
    longer f n = omega (arith, length-append f (le_bytes 8 n), length-le_bytes 8 n)

    length2 : length f2 ≡ 80
    length2 = omega (arith, length1, longer f1 s.balance)

    length3 : length f3 ≡ 88
    length3 = omega (arith, length2, longer f2 s.last_withdraw_slot)

    length4 : length f4 ≡ 96
    length4 = omega (arith, length3, longer f3 s.window_withdrawn)

    long : 104 ≤ length d
    long = omega (
      arith,
      ap length split4,
      length-append f4 (le_bytes 8 t ++ back),
      length-append (le_bytes 8 t) back,
      length-le_bytes 8 t,
      length4,
    )

-- An account of 97 to 103 bytes passes the test of its length, and reading it throws.
pub read_deposit-throws :
    (account : Account)
    → 97 ≤ length account.contents
    → length account.contents < 104
    → read_deposit (some account) ≡ none
unfolding read_deposit
read_deposit-throws account enough short =
    rw (le→not_ltb 97 (length account.contents) enough)
      (ground (arith, uint_at-past account.contents 96 8 short))
