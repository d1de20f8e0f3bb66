-- ===== src/Idl/Guard.antt =====
-- packages/sdk/src/types/trana_guard.ts: the instructions of the guard program, and the enumerations
-- among their arguments.
use trana.Prelude.{List, [], ◌∷◌, true, false, codes}
use trana.Idl.{
  IdlInstruction, IdlEnum, entry, prim, defined, u8, u64, i64, pubkey, string, bytes, const,
  account, anywhere, fixed, derived,
}

abbrev pub key_kind : IdlEnum
key_kind = record {
  name = codes "keyKind";
  variants =
      record { name = codes "secp256r1Passkey"; fields = [] }
      ∷ record { name = codes "ed25519"; fields = [] }
      ∷ [];
}

abbrev pub policy : IdlEnum
policy = record {
  name = codes "policy";
  variants =
      record { name = codes "require"; fields = [] }
      ∷ record { name = codes "notBefore"; fields = (codes "slot", u64) ∷ [] }
      ∷ record { name = codes "notAfter"; fields = (codes "slot", u64) ∷ [] }
      ∷ record {
        name = codes "limit";
        fields = (codes "paramOffset", u8) ∷ (codes "limit", u64) ∷ [];
      }
      ∷ [];
}

abbrev pub guard_enums : List IdlEnum
guard_enums = key_kind ∷ policy ∷ []

abbrev pub add_passkey : IdlInstruction
add_passkey = record {
  name = codes "addPasskey";
  discriminator = 173 ∷ 230 ∷ 84 ∷ 153 ∷ 54 ∷ 144 ∷ 214 ∷ 37 ∷ [];
  accounts =
      entry (codes "registry") true false
        (derived (const (codes "passkey") ∷ account (codes "owner") ∷ []))
      ∷ entry (codes "owner") true true (anywhere)
      ∷ entry (codes "systemProgram") false false (fixed (codes "11111111111111111111111111111111"))
      ∷ entry (codes "config") false false (derived (const (codes "config") ∷ []))
      ∷ entry (codes "treasury") true false (anywhere)
      ∷ entry (codes "instructions") false false
          (fixed (codes "Sysvar1nstructions1111111111111111111111111"))
      ∷ [];
  args =
      (codes "keyKind", defined (codes "keyKind"))
      ∷ (codes "pubkeyBytes", prim bytes)
      ∷ (codes "credentialId", prim bytes)
      ∷ [];
}

abbrev pub enforce : IdlInstruction
enforce = record {
  name = codes "enforce";
  discriminator = 145 ∷ 247 ∷ 86 ∷ 94 ∷ 97 ∷ 48 ∷ 101 ∷ 169 ∷ [];
  accounts =
      entry (codes "registry") true false (anywhere)
      ∷ entry (codes "owner") false true (anywhere)
      ∷ entry (codes "instructions") false false
          (fixed (codes "Sysvar1nstructions1111111111111111111111111"))
      ∷ [];
  args = (codes "policy", defined (codes "policy")) ∷ [];
}

abbrev pub init_config : IdlInstruction
init_config = record {
  name = codes "initConfig";
  discriminator = 23 ∷ 235 ∷ 115 ∷ 232 ∷ 168 ∷ 96 ∷ 1 ∷ 231 ∷ [];
  accounts =
      entry (codes "config") true false (derived (const (codes "config") ∷ []))
      ∷ entry (codes "authority") true true (anywhere)
      ∷ entry (codes "systemProgram") false false (fixed (codes "11111111111111111111111111111111"))
      ∷ [];
  args =
      (codes "registerFee", prim u64)
      ∷ (codes "addKeyFee", prim u64)
      ∷ (codes "treasury", prim pubkey)
      ∷ [];
}

abbrev pub record_proof : IdlInstruction
record_proof = record {
  name = codes "recordProof";
  discriminator = 144 ∷ 172 ∷ 144 ∷ 35 ∷ 124 ∷ 170 ∷ 93 ∷ 80 ∷ [];
  accounts =
      entry (codes "instructions") false false
        (fixed (codes "Sysvar1nstructions1111111111111111111111111"))
      ∷ [];
  args =
      (codes "version", prim u8)
      ∷ (codes "expiry", prim i64)
      ∷ (codes "policy", prim string)
      ∷ (codes "authenticatorData", prim bytes)
      ∷ (codes "clientDataJson", prim bytes)
      ∷ [];
}

abbrev pub recover_registry : IdlInstruction
recover_registry = record {
  name = codes "recoverRegistry";
  discriminator = 136 ∷ 166 ∷ 31 ∷ 45 ∷ 33 ∷ 116 ∷ 115 ∷ 12 ∷ [];
  accounts =
      entry (codes "registry") true false
        (derived (const (codes "passkey") ∷ account (codes "owner") ∷ []))
      ∷ entry (codes "owner") true true (anywhere)
      ∷ entry (codes "systemProgram") false false (fixed (codes "11111111111111111111111111111111"))
      ∷ [];
  args =
      (codes "keyKind", defined (codes "keyKind"))
      ∷ (codes "pubkeyBytes", prim bytes)
      ∷ (codes "credentialId", prim bytes)
      ∷ [];
}

abbrev pub register_passkey : IdlInstruction
register_passkey = record {
  name = codes "registerPasskey";
  discriminator = 16 ∷ 2 ∷ 121 ∷ 116 ∷ 194 ∷ 17 ∷ 247 ∷ 233 ∷ [];
  accounts =
      entry (codes "registry") true false
        (derived (const (codes "passkey") ∷ account (codes "owner") ∷ []))
      ∷ entry (codes "owner") true true (anywhere)
      ∷ entry (codes "systemProgram") false false (fixed (codes "11111111111111111111111111111111"))
      ∷ entry (codes "config") false false (derived (const (codes "config") ∷ []))
      ∷ entry (codes "treasury") true false (anywhere)
      ∷ [];
  args =
      (codes "keyKind", defined (codes "keyKind"))
      ∷ (codes "pubkeyBytes", prim bytes)
      ∷ (codes "credentialId", prim bytes)
      ∷ [];
}

abbrev pub remove_passkey : IdlInstruction
remove_passkey = record {
  name = codes "removePasskey";
  discriminator = 121 ∷ 198 ∷ 177 ∷ 145 ∷ 248 ∷ 134 ∷ 170 ∷ 239 ∷ [];
  accounts =
      entry (codes "registry") true false
        (derived (const (codes "passkey") ∷ account (codes "owner") ∷ []))
      ∷ entry (codes "owner") false true (anywhere)
      ∷ entry (codes "instructions") false false
          (fixed (codes "Sysvar1nstructions1111111111111111111111111"))
      ∷ [];
  args = (codes "credentialId", prim bytes) ∷ [];
}

abbrev pub update_config : IdlInstruction
update_config = record {
  name = codes "updateConfig";
  discriminator = 29 ∷ 158 ∷ 252 ∷ 191 ∷ 10 ∷ 83 ∷ 219 ∷ 99 ∷ [];
  accounts =
      entry (codes "config") true false (derived (const (codes "config") ∷ []))
      ∷ entry (codes "authority") false true (anywhere)
      ∷ [];
  args =
      (codes "registerFee", prim u64)
      ∷ (codes "addKeyFee", prim u64)
      ∷ (codes "treasury", prim pubkey)
      ∷ [];
}

abbrev pub guard_instructions : List IdlInstruction
guard_instructions =
    add_passkey ∷ enforce ∷ init_config ∷ record_proof ∷ recover_registry ∷ register_passkey
    ∷ remove_passkey ∷ update_config ∷ []
