-- ===== src/React/Registry/Layout.antt =====
-- parseRegistryAccount of packages/sdk/src/react/registry.ts against the layout of its comment and the
-- layout of programs/trana_guard/src/state.rs.
use trana.Prelude.{ℕ, ◌+◌, ◌*◌, ◌/◌, ◌%◌, ◌^◌, ◌≤◌, ◌<◌, ◌≡◌, refl, ap, ap₂, ◌∙◌, arith}
use trana.Prelude.{List, [], ◌∷◌, ◌++◌, append_assoc, none, some, Bool, true, false, if◌then◌else◌}
use trana.Prelude.{length, length-append, get_elem?, ltb}
use trana.Prelude.{le→not_ltb}
use trana.Bytes.{slice, le_bytes, le_value}
use trana.Bytes.Endian.{length-le_bytes}
use trana.Bytes.Writes.{slice-middle}
use trana.React.Registry.Fields.{uint_at-middle, uint_at-le_bytes, uint_at-past, byte-middle}
use trana.React.Registry.{
  RegistryState, uint_at, parse_registry_account, byte_is_one, fetched, on_account_change,
}

-- The layout of the comment: the discriminator, the owner, the kind of the key, the key, the
-- credential, the flag and the nonce.
abbrev pub documented : (disc : List ℕ) → (kind : ℕ) → RegistryState → List ℕ
documented disc kind s =
    disc
    ++ (s.owner
        ++ (kind
            ∷ (le_bytes 4 (length s.pubkey)
                ++ (s.pubkey
                    ++ (le_bytes 4 (length s.credential_id)
                        ++ (s.credential_id
                            ++ ((if s.enabled then 1 else 0) ∷ (le_bytes 8 s.nonce ++ []))))))))

-- The result, from the three numbers that the reader takes.
parsed :
    (bytes : List ℕ) (a b n : ℕ)
    → uint_at bytes 41 4 ≡ some a
    → uint_at bytes (45 + a) 4 ≡ some b
    → uint_at bytes (45 + a + 4 + b + 1) 8 ≡ some n
    → parse_registry_account bytes
      ≡ some (record {
        owner = slice bytes 8 40;
        pubkey = slice bytes 45 (45 + a);
        credential_id = slice bytes (45 + a + 4) (45 + a + 4 + b);
        enabled = byte_is_one (get_elem? bytes (45 + a + 4 + b));
        nonce = n;
      })
unfolding parse_registry_account
parsed bytes a b n e f g = rw e (rw f (rw g refl))

flag_of : (b : Bool) → byte_is_one (some (if b then 1 else 0)) ≡ b
flag_of true = refl
flag_of false = refl

-- The reader gets every field back from the layout that its comment documents, for an 8-byte
-- discriminator, a 32-byte owner, strings below 2 ^ 32 bytes and a nonce below 2 ^ 64.
pub parse_registry_account-documented :
    (disc : List ℕ) (kind : ℕ) (s : RegistryState)
    → length disc ≡ 8
    → length s.owner ≡ 32
    → length s.pubkey < 2 ^ 32
    → length s.credential_id < 2 ^ 32
    → s.nonce < 2 ^ 64
    → parse_registry_account (documented disc kind s) ≡ some s
parse_registry_account-documented disc kind s disc_8 owner_32 short_key short_credential small =
    parsed bytes a b s.nonce (uint_at-le_bytes bytes f1 _ 41 4 a split1 length1 short_key)
      (uint_at-le_bytes bytes f3 _ (45 + a) 4 b split3 length3 short_credential)
      (uint_at-le_bytes bytes f6 [] (45 + a + 4 + b + 1) 8 s.nonce split6
        (omega (arith, length5, length-append f5 (flag ∷ []))) small)
    ∙ rw (owner_read, pubkey_read, credential_read, flag_read, flag_of s.enabled) refl
  where
    a : ℕ
    a = length s.pubkey

    b : ℕ
    b = length s.credential_id

    flag : ℕ
    flag = if s.enabled then 1 else 0

    bytes : List ℕ
    bytes = documented disc kind s

    f1 : List ℕ
    f1 = disc ++ (s.owner ++ (kind ∷ []))

    f2 : List ℕ
    f2 = f1 ++ le_bytes 4 a

    f3 : List ℕ
    f3 = f2 ++ s.pubkey

    f4 : List ℕ
    f4 = f3 ++ le_bytes 4 b

    f5 : List ℕ
    f5 = f4 ++ s.credential_id

    f6 : List ℕ
    f6 = f5 ++ (flag ∷ [])

    split1 :
        bytes
        ≡ f1
          ++ (le_bytes 4 a
              ++ (s.pubkey
                  ++ (le_bytes 4 b ++ (s.credential_id ++ (flag ∷ (le_bytes 8 s.nonce ++ []))))))
    split1 = simp (append_assoc)

    split2 :
        bytes
        ≡ f2
          ++ (s.pubkey
              ++ (le_bytes 4 b ++ (s.credential_id ++ (flag ∷ (le_bytes 8 s.nonce ++ [])))))
    split2 = simp (append_assoc)

    split3 :
        bytes ≡ f3 ++ (le_bytes 4 b ++ (s.credential_id ++ (flag ∷ (le_bytes 8 s.nonce ++ []))))
    split3 = simp (append_assoc)

    split4 : bytes ≡ f4 ++ (s.credential_id ++ (flag ∷ (le_bytes 8 s.nonce ++ [])))
    split4 = simp (append_assoc)

    split5 : bytes ≡ f5 ++ (flag ∷ (le_bytes 8 s.nonce ++ []))
    split5 = simp (append_assoc)

    split6 : bytes ≡ f6 ++ (le_bytes 8 s.nonce ++ [])
    split6 = simp (append_assoc)

    length1 : length f1 ≡ 41
    length1 =
        omega
          (arith, length-append disc (s.owner ++ (kind ∷ [])), length-append s.owner (kind ∷ []))

    length2 : length f2 ≡ 45
    length2 = omega (arith, length1, length-append f1 (le_bytes 4 a), length-le_bytes 4 a)

    length3 : length f3 ≡ 45 + a
    length3 = omega (arith, length2, length-append f2 s.pubkey)

    length4 : length f4 ≡ 45 + a + 4
    length4 = omega (arith, length3, length-append f3 (le_bytes 4 b), length-le_bytes 4 b)

    length5 : length f5 ≡ 45 + a + 4 + b
    length5 = omega (arith, length4, length-append f4 s.credential_id)

    owner_read : slice bytes 8 40 ≡ s.owner
    owner_read = slice-middle disc s.owner _ 8 40 disc_8 (omega arith)

    pubkey_read : slice bytes 45 (45 + a) ≡ s.pubkey
    pubkey_read =
        ap (λ t. slice t 45 (45 + a)) split2 ∙ slice-middle f2 s.pubkey _ 45 (45 + a) length2 refl

    credential_read : slice bytes (45 + a + 4) (45 + a + 4 + b) ≡ s.credential_id
    credential_read =
        ap (λ t. slice t (45 + a + 4) (45 + a + 4 + b)) split4
        ∙ slice-middle f4 s.credential_id _ (45 + a + 4) (45 + a + 4 + b) length4 refl

    flag_read : get_elem? bytes (45 + a + 4 + b) ≡ some flag
    flag_read = byte-middle bytes f5 (le_bytes 8 s.nonce ++ []) flag (45 + a + 4 + b) split5 length5

-- The account of the guard program: the discriminator, the owner, the nonce, the number of keys, and
-- the keys.
abbrev pub on_chain : (disc owner : List ℕ) → (nonce count : ℕ) → (keys : List ℕ) → List ℕ
on_chain disc owner nonce count keys =
    disc ++ (owner ++ (le_bytes 8 nonce ++ (le_bytes 4 count ++ keys)))

-- On an account of the guard program with a nonce below 256 and 1 to 255 keys that take less than
-- 2 ^ 24 bytes the reader fails: the fetch throws, and the listener reports no registry.
pub parse_registry_account-on_chain :
    (disc owner keys : List ℕ) (nonce count : ℕ)
    → length disc ≡ 8
    → length owner ≡ 32
    → nonce < 256
    → 1 ≤ count
    → count < 256
    → length keys < 2 ^ 24
    → (fetched (some (on_chain disc owner nonce count keys)) ≡ none)
      × (on_account_change (on_chain disc owner nonce count keys) ≡ none)
unfolding fetched on_account_change parse_registry_account
parse_registry_account-on_chain disc owner keys nonce count h k fresh some_key few short =
    rw (fails) (rw (not_short) (refl, refl))
  where
    bytes : List ℕ
    bytes = on_chain disc owner nonce count keys

    front : List ℕ
    front = disc ++ (owner ++ (nonce ∷ []))

    nonce_bytes : le_bytes 8 nonce ≡ nonce ∷ 0 ∷ 0 ∷ 0 ∷ 0 ∷ 0 ∷ 0 ∷ 0 ∷ []
    nonce_bytes =
        unfold le_bytes in
        ap₂ (λ x y. x ∷ le_bytes 7 y) {x = nonce % 256} {y = nonce} {u = nonce / 256} {v = 0}
          (omega arith) (omega arith)

    count_bytes : le_bytes 4 count ≡ count ∷ 0 ∷ 0 ∷ 0 ∷ []
    count_bytes =
        unfold le_bytes in
        ap₂ (λ x y. x ∷ le_bytes 3 y) {x = count % 256} {y = count} {u = count / 256} {v = 0}
          (omega arith) (omega arith)

    split : bytes ≡ front ++ ((0 ∷ 0 ∷ 0 ∷ 0 ∷ []) ++ (0 ∷ 0 ∷ 0 ∷ count ∷ 0 ∷ 0 ∷ 0 ∷ keys))
    split = rw (nonce_bytes, count_bytes) (simp (append_assoc))

    front_41 : length front ≡ 41
    front_41 =
        omega (arith, length-append disc (owner ++ (nonce ∷ [])), length-append owner (nonce ∷ []))

    key_length : uint_at bytes 41 4 ≡ some 0
    key_length =
        uint_at-middle bytes front (0 ∷ 0 ∷ 0 ∷ 0 ∷ []) _ 41 4 split front_41 refl
        ∙ unfold le_value in refl

    front' : List ℕ
    front' = front ++ (0 ∷ 0 ∷ 0 ∷ 0 ∷ [])

    split' : bytes ≡ front' ++ ((0 ∷ 0 ∷ 0 ∷ count ∷ []) ++ (0 ∷ 0 ∷ 0 ∷ keys))
    split' = split ∙ simp (append_assoc)

    value : le_value (0 ∷ 0 ∷ 0 ∷ count ∷ []) ≡ count * 2 ^ 24
    value = unfold le_value in omega arith

    credential_length : uint_at bytes 45 4 ≡ some (count * 2 ^ 24)
    credential_length =
        uint_at-middle bytes front' (0 ∷ 0 ∷ 0 ∷ count ∷ []) _ 45 4 split'
          (omega (arith, front_41, length-append front (0 ∷ 0 ∷ 0 ∷ 0 ∷ []))) refl
        ∙ ap some value

    length_bytes : length bytes ≡ 52 + length keys
    length_bytes = omega (
      arith,
      length-append disc (owner ++ (le_bytes 8 nonce ++ (le_bytes 4 count ++ keys))),
      length-append owner (le_bytes 8 nonce ++ (le_bytes 4 count ++ keys)),
      length-append (le_bytes 8 nonce) (le_bytes 4 count ++ keys),
      length-append (le_bytes 4 count) keys,
      length-le_bytes 8 nonce,
      length-le_bytes 4 count,
    )

    fails : parse_registry_account bytes ≡ none
    fails = rw key_length (
        rw credential_length (
          rw (uint_at-past bytes (45 + 0 + 4 + count * 2 ^ 24 + 1) 8 (omega (arith, length_bytes)))
            refl))

    not_short : ltb (length bytes) 46 ≡ false
    not_short = le→not_ltb 46 (length bytes) (omega (arith, length_bytes))
