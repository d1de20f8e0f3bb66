-- ===== src/Landing/Registry/Reading.antt =====
-- apps/landing/lib/vault.ts: what the readers of the registry give for an account of the guard program.
use trana.Prelude.{
  ℕ, zero, suc, ◌^◌, ◌<◌, ◌≡◌, refl, sym, ap, ◌∙◌, arith, List, [], ◌∷◌, ◌++◌, append_assoc,
}
use trana.Prelude.{some, map, length, length-append, ltb, ltb→lt, true, false}
use trana.Prelude.{Bool-cases, inl, inr}
use trana.Bytes.{le_bytes, ◌>>=◌, >>=-eq-some}
use trana.Bytes.Endian.{length-le_bytes}
use trana.Types.{PasskeyHandle}
use trana.React.Registry.{uint_at}
use trana.React.Registry.Fields.{uint_at-le_bytes}
use trana.React.Registry.Layout.{on_chain}
use trana.Landing.Registry.{read_nonce, entry_at, entries_from, all_passkeys, first_passkey}
use trana.Landing.Registry.Layout.{
  entry_bytes, entries_bytes, HasShortKeys, entries_from-entries_bytes,
}
use mathlib.Core.Option

-- Any entry takes at least nine bytes.
short_has_none : (keys : List (ℕ × PasskeyHandle)) → length (entries_bytes keys) < 1 → keys ≡ []
unfolding entries_bytes entry_bytes
short_has_none [] h = refl
short_has_none (k ∷ keys) h =
    absurd (omega (arith, length-append (entry_bytes k) (entries_bytes keys)))

-- From an account of the guard program with fewer than 2 ^ 32 keys, whose byte strings are below
-- 2 ^ 32 bytes, the site reads back the nonce, when it is below 2 ^ 64, and every key in order,
-- whatever bytes the account has left behind them.
pub all_passkeys-on_chain :
    (disc owner back : List ℕ) (nonce : ℕ) (keys : List (ℕ × PasskeyHandle)) (lamports : ℕ)
    → length disc ≡ 8
    → length owner ≡ 32
    → nonce < 2 ^ 64
    → length keys < 2 ^ 32
    → HasShortKeys keys
    → let d = on_chain disc owner nonce (length keys) (entries_bytes keys ++ back) in
      (read_nonce (some (record { lamports = lamports; contents = d })) ≡ some nonce)
      × (all_passkeys d ≡ some (map (λ k. k.1) keys))
unfolding all_passkeys read_nonce
all_passkeys-on_chain disc owner back nonce keys lamports disc_8 owner_32 small few short = (
  uint_at-le_bytes d f1 _ 40 8 nonce split1 length1 small,
  elim (Bool-cases (ltb (length d) 53)) [
    | inl brief ↦ rw brief (rw (short_has_none keys (none_left brief)) refl)
    | inr long ↦
        rw long (rw count (entries_from-entries_bytes d f3 back 52 keys split3 length3 short))
  ],
)
  where
    d : List ℕ
    d = on_chain disc owner nonce (length keys) (entries_bytes keys ++ back)

    f1 : List ℕ
    f1 = disc ++ owner

    f2 : List ℕ
    f2 = f1 ++ le_bytes 8 nonce

    f3 : List ℕ
    f3 = f2 ++ le_bytes 4 (length keys)

    split1 :
        d ≡ f1 ++ (le_bytes 8 nonce ++ (le_bytes 4 (length keys) ++ (entries_bytes keys ++ back)))
    split1 = simp (append_assoc)

    split2 : d ≡ f2 ++ (le_bytes 4 (length keys) ++ (entries_bytes keys ++ back))
    split2 = simp (append_assoc)

    split3 : d ≡ f3 ++ (entries_bytes keys ++ back)
    split3 = simp (append_assoc)

    length1 : length f1 ≡ 40
    length1 = omega (arith, length-append disc owner)

    length2 : length f2 ≡ 48
    length2 = omega (arith, length1, length-append f1 (le_bytes 8 nonce), length-le_bytes 8 nonce)

    length3 : length f3 ≡ 52
    length3 = omega (
      arith,
      length2,
      length-append f2 (le_bytes 4 (length keys)),
      length-le_bytes 4 (length keys),
    )

    count : uint_at d 48 4 ≡ some (length keys)
    count = uint_at-le_bytes d f2 _ 48 4 (length keys) split2 length2 few

    none_left : ltb (length d) 53 ≡ true → length (entries_bytes keys) < 1
    none_left brief = omega (
      arith,
      ltb→lt (length d) 53 brief,
      ap length split3,
      length-append f3 (entries_bytes keys ++ back),
      length-append (entries_bytes keys) back,
      length3,
    )

first-entries_from :
    (d : List ℕ) (off n : ℕ) (e : PasskeyHandle) (es : List PasskeyHandle)
    → entries_from d off n ≡ some (e ∷ es)
    → Option.map (λ r. some r.0) (entry_at d off) ≡ some (some e)
unfolding entries_from
first-entries_from d off zero e es h = cc
first-entries_from d off (suc n) e es h = ground arith

long_read :
    (d : List ℕ)
    → ltb (length d) 53 ≡ false
    → all_passkeys d ≡ (uint_at d 48 4 >>= λ vec_len. entries_from d 52 vec_len)
unfolding all_passkeys
long_read d long = rw long refl

-- On any bytes whatever, when the reader of all keys finds some, the reader of the first key gives
-- the first of them.
pub first_passkey-all_passkeys :
    (d : List ℕ) (e : PasskeyHandle) (es : List PasskeyHandle)
    → all_passkeys d ≡ some (e ∷ es)
    → first_passkey d ≡ some (some e)
unfolding first_passkey all_passkeys
first_passkey-all_passkeys d e es h = elim (Bool-cases (ltb (length d) 53)) [
  | inl brief ↦ ground arith
  | inr long ↦ rw long (
      let (n, _, found) =
        >>=-eq-some (uint_at d 48 4) (λ n. entries_from d 52 n) (sym (long_read d long) ∙ h) in
      first-entries_from d 52 n e es found)
]
