-- ===== src/Tests/Idl.antt =====
-- Calls of the guard against its interface description, on concrete accounts.
use trana.Prelude.{
  ℕ, ◌≡◌, refl, arith, List, [], ◌∷◌, Option, some, length, replicate, codes, Bool, true, false,
  ◌==◌, ◌&&◌, ap, sym,
}
use trana.Prelude.Equality.{same}
use trana.Bytes.Utf8.{utf8}
use trana.Types.{KeyText, Instruction, devnet}
use trana.Idl.{IsCall, num, buf, atom}
use trana.Idl.Guard.{guard_enums, add_passkey, record_proof, register_passkey}
use trana.Idl.Calls.{
  guard_resolver, passkey_values, passkey_instructions-IsCall, build_record_proof_ix-IsCall,
}
use trana.Idl.Authority.Given.{IsComplete, given-IsComplete}
use trana.Authority
use trana.Secp256r1.{build_record_proof_ix}
use trana.Landing.Vault.{Programs, build_register_passkey_ix, build_add_passkey_ix}
use trana.Prelude.{◌+◌, none}
use trana.Tests.{
  withdraw, ids, wallet, guard_id, compressed_key, of_text, of_text-whole, length-of_text,
}
use trana.Tests.Landing.{addresses, connection}

abbrev sysvar_text : List ℕ
sysvar_text = codes "Sysvar1nstructions1111111111111111111111111"

-- The text of the sysvar by its key, and any 32 bytes as they are.
abbrev of_name_if : (is_sysvar : Bool) → (text : List ℕ) → Option (List ℕ)
of_name_if true text = some (replicate 32 7)
of_name_if false text = of_text text

abbrev of_name : List ℕ → Option (List ℕ)
of_name text = of_name_if (length text == 43 && same text sysvar_text) text

of_name-whole : (key : List ℕ) → length key ≡ 32 → of_name key ≡ some key
of_name-whole key h = rw h (of_text-whole key h)

length-of_name_if :
    (is_sysvar : Bool) (text key : List ℕ) → of_name_if is_sysvar text ≡ some key → length key ≡ 32
length-of_name_if true text key h = let e : replicate 32 7 ≡ key = cc in ap length (sym e)
length-of_name_if false text key h = length-of_text text key h

abbrev keys : KeyText
keys = record {
  to_base58 = λ key. key;
  of_base58 = of_name;
  of-to = of_name-whole;
  length-of = λ text. length-of_name_if (length text == 43 && same text sysvar_text) text;
}

abbrev programs : Programs
programs = record {
  ids = ids;
  vault_program = replicate 32 10;
  guard_program = guard_id;
  system_program = codes "11111111111111111111111111111111";
}

sysvar_read : keys.of_base58 sysvar_text ≡ some (replicate 32 7)
unfolding same
sysvar_read = refl

passkey_instructions-IsCall_example :
    (register : Instruction) × (add : Instruction) × (build_register_passkey_ix addresses programs
        wallet connection compressed_key
        (1 ∷ [])
      ≡ some register)
    × (build_add_passkey_ix addresses programs wallet connection compressed_key (1 ∷ []) ≡ some add)
    × IsCall
        (guard_resolver keys addresses guard_id)
        guard_enums
        register_passkey
        (passkey_values compressed_key (1 ∷ []))
        register
    × IsCall
        (guard_resolver keys addresses guard_id)
        guard_enums
        add_passkey
        (passkey_values compressed_key (1 ∷ []))
        add
passkey_instructions-IsCall_example =
    passkey_instructions-IsCall keys addresses programs connection 1 (replicate 8 7)
      (replicate 32 1) (replicate 32 9) (1 ∷ []) wallet compressed_key (1 ∷ []) refl sysvar_read
      refl refl refl refl (omega arith) (omega arith)

build_record_proof_ix-IsCall_example :
    IsCall
      (guard_resolver keys addresses guard_id)
      guard_enums
      record_proof
      (atom (num 1)
        ∷ atom (num 1000)
        ∷ atom (buf (utf8 (codes "trana.limit")))
        ∷ atom (buf (replicate 37 1))
        ∷ atom (buf (codes "{}"))
        ∷ [])
      (build_record_proof_ix ids
        (guard_resolver keys addresses guard_id).program
        (replicate 37 1)
        (codes "{}")
        1000
        (codes "trana.limit"))
unfolding utf8
build_record_proof_ix-IsCall_example =
    build_record_proof_ix-IsCall (guard_resolver keys addresses guard_id) ids (replicate 37 1)
      (codes "{}") 1000 (codes "trana.limit") sysvar_read (omega arith) (omega arith) (omega arith)
      (omega arith)

abbrev anchor : Authority.Anchor
anchor = record {
  AuthorityRecord = Unit {0};
  idl_address = guard_id;
  build = λ program call. withdraw;
  find_program_address = λ seeds program. replicate 32 (40 + length seeds);
  fetch_record = λ pda. none;
}

abbrev authority_client : Authority.Client
authority_client = record { program_id = guard_id; cluster = devnet; program = guard_id }

given-IsComplete_example :
    IsComplete anchor keys authority_client
      (Authority.execute_upgrade wallet (replicate 32 2) (replicate 32 3) (replicate 32 4) wallet)
given-IsComplete_example =
    given-IsComplete anchor keys authority_client
      (Authority.execute_upgrade wallet (replicate 32 2) (replicate 32 3) (replicate 32 4) wallet)
      refl
