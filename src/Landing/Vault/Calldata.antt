-- ===== src/Landing/Vault/Calldata.antt =====
-- The instructions of apps/landing/lib/vault.ts, as the programs read their arguments and accounts.
use trana.Prelude.{
  ℕ, ◌^◌, ◌<◌, ◌≡◌, refl, ap, ◌∙◌, arith, List, [], ◌++◌, append-nil, append_assoc, true, false,
}
use trana.Prelude.{Option, some, length, length-append, get_elem?}
use trana.Bytes.{le_bytes, le_value, split_at, finish, slice, ◌>>=◌}
use trana.Bytes.Endian.{length-le_bytes, le_value-le_bytes, split_at-append}
use trana.Bytes.Writes.{slice-middle}
use trana.Landing.Vault.{Addresses, Programs, Connection, get_config_pda, fetch_treasury, meta}
use trana.Landing.Vault.{build_deposit_ix, build_withdraw_ix, deposit_disc}
use trana.Landing.Vault.{withdraw_disc}

-- A discriminator and one u64.
unfoldable pub read_amount : List ℕ → Option (List ℕ × ℕ)
read_amount bytes = do
  (disc, r1) ← split_at 8 bytes
  (amount, r2) ← split_at 8 r1
  finish r2 (disc, le_value amount)

-- The treasury is 32 bytes of the config account, behind its discriminator and its authority.
pub fetched_treasury :
    (addresses : Addresses) (programs : Programs) (connection : Connection) (lamports : ℕ)
    (disc authority treasury back : List ℕ)
    → connection.account_info (get_config_pda addresses programs)
      ≡ some (
          some
            (record { lamports = lamports; contents = disc ++ (authority ++ (treasury ++ back)) }))
    → length disc ≡ 8
    → length authority ≡ 32
    → length treasury ≡ 32
    → fetch_treasury addresses programs connection ≡ some treasury
unfolding fetch_treasury
fetched_treasury addresses programs connection lamports disc authority treasury back there disc_8
      authority_32 treasury_32 =
    rw there (ap addresses.of_bytes read ∙ addresses.of_bytes_32 treasury treasury_32)
  where
    split : disc ++ (authority ++ (treasury ++ back)) ≡ (disc ++ authority) ++ (treasury ++ back)
    split = simp (append_assoc)

    read : slice (disc ++ (authority ++ (treasury ++ back))) 40 72 ≡ treasury
    read =
        ap (λ t. slice t 40 72) split
        ∙ slice-middle (disc ++ authority) treasury back 40 72
            (omega (arith, length-append disc authority)) (omega arith)

read_amount-le_bytes :
    (disc : List ℕ) (n : ℕ)
    → length disc ≡ 8
    → n < 2 ^ 64
    → read_amount (disc ++ le_bytes 8 n) ≡ some (disc, n)
unfolding read_amount
read_amount-le_bytes disc n disc_8 small = rw (split_at-append disc _ 8 disc_8) (
    rw (← append-nil (le_bytes 8 n), split_at-append (le_bytes 8 n) [] 8 (length-le_bytes 8 n))
      (rw (le_value-le_bytes 8 n small) refl))

-- The vault program reads from a deposit and from a withdrawal the discriminator of each and the
-- amount, for an amount below 2 ^ 64; the depositor signs the one and the owner the other, and the
-- withdrawal hands the guard the registry that is given.
pub vault_instructions_read_back :
    (programs : Programs) (pool deposit user destination registry : List ℕ) (lamports : ℕ)
    → lamports < 2 ^ 64
    → let paid = build_deposit_ix programs pool deposit user lamports in
      let taken = build_withdraw_ix programs pool deposit user destination registry lamports in
      (read_amount paid.payload ≡ some (deposit_disc, lamports))
      × (get_elem? paid.keys 2 ≡ some (meta user true true))
      × (read_amount taken.payload ≡ some (withdraw_disc, lamports))
      × (get_elem? taken.keys 2 ≡ some (meta user true false))
      × (get_elem? taken.keys 5 ≡ some (meta registry false true))
unfolding build_deposit_ix build_withdraw_ix
vault_instructions_read_back programs pool deposit user destination registry lamports small = (
  read_amount-le_bytes deposit_disc lamports refl small,
  refl,
  read_amount-le_bytes withdraw_disc lamports refl small,
  refl,
  refl,
)
