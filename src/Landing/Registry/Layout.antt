-- ===== src/Landing/Registry/Layout.antt =====
-- apps/landing/lib/vault.ts: the readers of the registry against the layout of
-- programs/trana_guard/src/state.rs.
use trana.Prelude.{ℕ, ◌+◌, ◌^◌, ◌<◌, ◌≡◌, refl, ap, ◌∙◌, arith, List, [], ◌∷◌, ◌++◌, append_assoc}
use trana.Prelude.{some, map, length, length-append, All}
use trana.Bytes.{slice, le_bytes}
use trana.Bytes.Endian.{length-le_bytes}
use trana.Bytes.Writes.{slice-middle}
use trana.Types.{PasskeyHandle}
use trana.Secp256r1.{borsh_bytes}
use trana.React.Registry.{uint_at}
use trana.React.Registry.Fields.{uint_at-le_bytes}
use trana.Landing.Registry.{entry_at, entries_from}

-- A `PasskeyEntry` in Borsh, with its kind.
unfoldable pub entry_bytes : ℕ × PasskeyHandle → List ℕ
unfolding borsh_bytes
entry_bytes (kind, e) = kind ∷ (borsh_bytes e.pubkey_bytes ++ borsh_bytes e.credential_id)

unfoldable pub entries_bytes : List (ℕ × PasskeyHandle) → List ℕ
entries_bytes [] = []
entries_bytes (k ∷ keys) = entry_bytes k ++ entries_bytes keys

abbrev pub HasShortKeys : List (ℕ × PasskeyHandle) → Type 0
HasShortKeys keys =
    All (λ k. (length (k.1).pubkey_bytes < 2 ^ 32) × (length (k.1).credential_id < 2 ^ 32)) keys

-- What an entry is read as, from the two numbers that the reader takes.
entry_of :
    (d : List ℕ) (off a b : ℕ)
    → uint_at d (off + 1) 4 ≡ some a
    → uint_at d (off + 1 + 4 + a) 4 ≡ some b
    → entry_at d off
      ≡ some (
        record {
          pubkey_bytes = slice d (off + 1 + 4) (off + 1 + 4 + a);
          credential_id = slice d (off + 1 + 4 + a + 4) (off + 1 + 4 + a + 4 + b);
        },
        off + 1 + 4 + a + 4 + b,
      )
unfolding entry_at
entry_of d off a b e f = rw e (rw f refl)

entry_at-entry_bytes :
    (d front back : List ℕ) (off kind : ℕ) (e : PasskeyHandle)
    → d ≡ front ++ (entry_bytes (kind, e) ++ back)
    → length front ≡ off
    → length e.pubkey_bytes < 2 ^ 32
    → length e.credential_id < 2 ^ 32
    → entry_at d off ≡ some (e, off + length (entry_bytes (kind, e)))
unfolding entry_bytes borsh_bytes
entry_at-entry_bytes d front back off kind e whole at short_key short_credential =
    entry_of d off a b (uint_at-le_bytes d f1 _ (off + 1) 4 a split1 length1 short_key)
      (uint_at-le_bytes d f3 _ (off + 1 + 4 + a) 4 b split3 length3 short_credential)
    ∙ rw (key_read, credential_read, total) refl
  where
    a : ℕ
    a = length e.pubkey_bytes

    b : ℕ
    b = length e.credential_id

    f1 : List ℕ
    f1 = front ++ (kind ∷ [])

    f2 : List ℕ
    f2 = f1 ++ le_bytes 4 a

    f3 : List ℕ
    f3 = f2 ++ e.pubkey_bytes

    f4 : List ℕ
    f4 = f3 ++ le_bytes 4 b

    split1 :
        d ≡ f1 ++ (le_bytes 4 a ++ (e.pubkey_bytes ++ (le_bytes 4 b ++ (e.credential_id ++ back))))
    split1 = whole ∙ simp (append_assoc)

    split2 : d ≡ f2 ++ (e.pubkey_bytes ++ (le_bytes 4 b ++ (e.credential_id ++ back)))
    split2 = whole ∙ simp (append_assoc)

    split3 : d ≡ f3 ++ (le_bytes 4 b ++ (e.credential_id ++ back))
    split3 = whole ∙ simp (append_assoc)

    split4 : d ≡ f4 ++ (e.credential_id ++ back)
    split4 = whole ∙ simp (append_assoc)

    length1 : length f1 ≡ off + 1
    length1 = omega (arith, length-append front (kind ∷ []))

    length2 : length f2 ≡ off + 1 + 4
    length2 = omega (arith, length1, length-append f1 (le_bytes 4 a), length-le_bytes 4 a)

    length3 : length f3 ≡ off + 1 + 4 + a
    length3 = omega (arith, length2, length-append f2 e.pubkey_bytes)

    length4 : length f4 ≡ off + 1 + 4 + a + 4
    length4 = omega (arith, length3, length-append f3 (le_bytes 4 b), length-le_bytes 4 b)

    key_read : slice d (off + 1 + 4) (off + 1 + 4 + a) ≡ e.pubkey_bytes
    key_read =
        ap (λ t. slice t (off + 1 + 4) (off + 1 + 4 + a)) split2
        ∙ slice-middle f2 e.pubkey_bytes _ (off + 1 + 4) (off + 1 + 4 + a) length2 refl

    credential_read : slice d (off + 1 + 4 + a + 4) (off + 1 + 4 + a + 4 + b) ≡ e.credential_id
    credential_read =
        ap (λ t. slice t (off + 1 + 4 + a + 4) (off + 1 + 4 + a + 4 + b)) split4
        ∙ slice-middle f4 e.credential_id back (off + 1 + 4 + a + 4) (off + 1 + 4 + a + 4 + b)
            length4 refl

    total : off + 1 + 4 + a + 4 + b ≡ off + length (entry_bytes (kind, e))
    total = omega (
      arith,
      length-append (le_bytes 4 a ++ e.pubkey_bytes) (le_bytes 4 b ++ e.credential_id),
      length-append (le_bytes 4 a) e.pubkey_bytes,
      length-append (le_bytes 4 b) e.credential_id,
      length-le_bytes 4 a,
      length-le_bytes 4 b,
    )

-- The loop reads the entries of a list back, from where they start.
pub entries_from-entries_bytes :
    (d front back : List ℕ) (off : ℕ) (keys : List (ℕ × PasskeyHandle))
    → d ≡ front ++ (entries_bytes keys ++ back)
    → length front ≡ off
    → HasShortKeys keys
    → entries_from d off (length keys) ≡ some (map (λ k. k.1) keys)
unfolding entries_from entries_bytes
entries_from-entries_bytes d front back off [] whole at short = refl
entries_from-entries_bytes d front back off ((kind, e) ∷ keys) whole at ((p, q), short) =
    rw
      (entry_at-entry_bytes d front (entries_bytes keys ++ back) off kind e
        (whole ∙ simp (append_assoc)) at p q)
      (rw
        (entries_from-entries_bytes d (front ++ entry_bytes (kind, e)) back
          (off + length (entry_bytes (kind, e))) keys (whole ∙ simp (append_assoc))
          (omega (arith, at, length-append front (entry_bytes (kind, e)))) short)
        refl)
