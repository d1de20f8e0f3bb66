-- ===== src/Idl/Calls.antt =====
-- The passkey instructions of apps/landing/lib/vault.ts and the data carrier of
-- packages/sdk/src/core/secp256r1.ts against packages/sdk/src/types/trana_guard.ts.
use trana.Prelude.{
  ℕ, ◌^◌, ◌<◌, ◌≡◌, refl, List, [], ◌∷◌, ◌++◌, append-nil, Option, some, false, length, codes,
}
use trana.Bytes.{le_bytes, le_value}
use trana.Bytes.Endian.{length-le_bytes, le_value-le_bytes, split_at-append}
use trana.Bytes.Utf8.{utf8}
use trana.Types.{KeyText, Instruction}
use trana.Idl.{
  Resolver, Value, num, buf, atom, variant, read_primitive, read_fields, find_enum, read_type,
  read_args, read_call, key_named, IsCall,
}
use trana.Idl.Guard.{guard_enums, add_passkey, record_proof, register_passkey}
use trana.Secp256r1.{Ids, borsh_bytes, borsh_str, record_proof_disc, build_record_proof_ix}
use trana.Secp256r1.RecordProof.{sized-borsh_bytes}
use trana.Landing.Vault.{
  Addresses, Programs, Connection, get_config_pda, get_registry_pda, fetch_treasury,
  build_register_passkey_ix, build_add_passkey_ix, passkey_accounts, passkey_data, meta,
  register_passkey_disc, add_passkey_disc,
}
use trana.Landing.Vault.Calldata.{fetched_treasury}

-- What a description of the guard means with the addresses of the site.
abbrev pub guard_resolver : KeyText → Addresses → (guard : List ℕ) → Resolver
guard_resolver keys addresses guard = record {
  keys = keys;
  find_program_address = addresses.find_program_address;
  program = guard;
}

-- The arguments of a passkey instruction: a secp256r1 key, its bytes and its credential.
abbrev pub passkey_values : (pubkey credential : List ℕ) → List Value
passkey_values pubkey credential = variant 0 [] ∷ atom (buf pubkey) ∷ atom (buf credential) ∷ []

read_passkey :
    (pubkey credential : List ℕ)
    → length pubkey < 2 ^ 32
    → length credential < 2 ^ 32
    → read_args guard_enums register_passkey.args
        (0 ∷ (borsh_bytes pubkey ++ borsh_bytes credential))
      ≡ some (passkey_values pubkey credential)
unfolding read_args read_type read_primitive find_enum read_fields trana.Prelude.Equality.same
read_passkey pubkey credential short_key short_credential = rw (split_at-append (0 ∷ []) _ 1 refl) (
    unfold le_value in
    rw (sized-borsh_bytes pubkey _ short_key) (
      rw (← append-nil (borsh_bytes credential), sized-borsh_bytes credential [] short_credential)
        refl))

-- With the config account of the guard on chain, both passkey instructions are built, and each is a
-- call of the instruction that the interface description of the guard lists: addressed to the guard,
-- its discriminator, a secp256r1 key with the key and the credential given, below 2 ^ 32 bytes each,
-- as its whole data, and every account with the described flags at its described place, in the
-- described order; where base58 reads the two fixed addresses as the ids that the site uses.
pub passkey_instructions-IsCall :
    (keys : KeyText) (addresses : Addresses) (programs : Programs) (connection : Connection)
    (lamports : ℕ) (disc authority treasury back owner pubkey credential : List ℕ)
    → keys.of_base58 (codes "11111111111111111111111111111111") ≡ some programs.system_program
    → keys.of_base58 (codes "Sysvar1nstructions1111111111111111111111111")
      ≡ some programs.ids.sysvar_instructions
    → connection.account_info (get_config_pda addresses programs)
      ≡ some (
          some
            (record { lamports = lamports; contents = disc ++ (authority ++ (treasury ++ back)) }))
    → length disc ≡ 8
    → length authority ≡ 32
    → length treasury ≡ 32
    → length pubkey < 2 ^ 32
    → length credential < 2 ^ 32
    → let guard = guard_resolver keys addresses programs.guard_program in
      (register : Instruction) × (add : Instruction) × (build_register_passkey_ix addresses programs
          owner connection pubkey credential
        ≡ some register)
      × (build_add_passkey_ix addresses programs owner connection pubkey credential ≡ some add)
      × IsCall guard guard_enums register_passkey (passkey_values pubkey credential) register
      × IsCall guard guard_enums add_passkey (passkey_values pubkey credential) add
unfolding build_register_passkey_ix build_add_passkey_ix get_registry_pda get_config_pda read_call
    key_named trana.Prelude.Equality.same
passkey_instructions-IsCall keys addresses programs connection lamports disc authority treasury back
      owner pubkey credential system sysvar there disc_8 authority_32 treasury_32 short_key
      short_credential =
    (
      record {
        program_id = programs.guard_program;
        keys = passkey_accounts addresses programs owner treasury;
        payload = passkey_data register_passkey_disc pubkey credential;
      },
      record {
        program_id = programs.guard_program;
        keys =
            passkey_accounts addresses programs owner treasury
            ++ (meta programs.ids.sysvar_instructions false false ∷ []);
        payload = passkey_data add_passkey_disc pubkey credential;
      },
      rw paid refl,
      rw paid refl,
      record {
        addressed = refl;
        arguments = rw (split_at-append register_passkey_disc _ 8 refl) read;
        accounts = (
          refl,
          refl,
          refl,
          (refl, refl, tt, (refl, refl, system, (refl, refl, refl, (refl, refl, tt, tt)))),
        );
      },
      record {
        addressed = refl;
        arguments = rw (split_at-append add_passkey_disc _ 8 refl) read;
        accounts = (
          refl,
          refl,
          refl,
          (
            refl,
            refl,
            tt,
            (refl, refl, system, (refl, refl, refl, (refl, refl, tt, (refl, refl, sysvar, tt)))),
          ),
        );
      },
    )
  where
    paid : fetch_treasury addresses programs connection ≡ some treasury
    paid =
        fetched_treasury addresses programs connection lamports disc authority treasury back there
          disc_8 authority_32 treasury_32

    read :
        read_args guard_enums register_passkey.args
          (0 ∷ (borsh_bytes pubkey ++ borsh_bytes credential))
        ≡ some (passkey_values pubkey credential)
    read = read_passkey pubkey credential short_key short_credential

record_proof_disc_idl : record_proof_disc ≡ record_proof.discriminator
unfolding trana.Sha256.runs_sha256 record_proof_disc
record_proof_disc_idl = refl

-- The data carrier that the SDK builds is a call of `recordProof` as the interface description of the
-- guard lists it, with the computed discriminator the described one: version 1, the expiry, the policy
-- and the two WebAuthn byte strings as its whole data, and the instructions sysvar as its account; for
-- an expiry below 2 ^ 64, strings below 2 ^ 32 bytes, and where base58 reads the described address as
-- the sysvar that the SDK uses.
pub build_record_proof_ix-IsCall :
    (r : Resolver) (ids : Ids) (authenticator_data client_data_json : List ℕ) (expiry : ℕ)
    (policy : List ℕ)
    → r.keys.of_base58 (codes "Sysvar1nstructions1111111111111111111111111")
      ≡ some ids.sysvar_instructions
    → expiry < 2 ^ 64
    → length (utf8 policy) < 2 ^ 32
    → length authenticator_data < 2 ^ 32
    → length client_data_json < 2 ^ 32
    → IsCall r guard_enums record_proof
        (atom (num 1)
          ∷ atom (num expiry)
          ∷ atom (buf (utf8 policy))
          ∷ atom (buf authenticator_data)
          ∷ atom (buf client_data_json)
          ∷ [])
        (build_record_proof_ix ids r.program authenticator_data client_data_json expiry policy)
unfolding build_record_proof_ix read_call read_args read_type read_primitive borsh_str
    trana.Prelude.Equality.same
build_record_proof_ix-IsCall r ids auth client expiry policy sysvar soon short_policy short_auth
      short_client =
    record {
      addressed = refl;
      arguments = rw record_proof_disc_idl (
          rw (split_at-append record_proof.discriminator _ 8 refl) (
            rw (split_at-append (1 ∷ []) _ 1 refl) (
              rw (split_at-append (le_bytes 8 expiry) _ 8 (length-le_bytes 8 expiry)) (
                rw (sized-borsh_bytes (utf8 policy) _ short_policy) (
                  rw (sized-borsh_bytes auth _ short_auth) (
                    rw (← append-nil (borsh_bytes client), sized-borsh_bytes client [] short_client)
                      (rw (le_value-le_bytes 8 expiry soon) (unfold le_value in refl))))))));
      accounts = (refl, refl, sysvar, tt);
    }
