-- ===== src/Idl/Authority.antt =====
-- packages/sdk/src/types/trana_authority.ts: the instructions of the upgrade-authority program, and the
-- address that the description names.
pub mod Given
use trana.Prelude.{ℕ, List, [], ◌∷◌, true, false, codes}
use trana.Idl.{
  IdlInstruction, entry, prim, pubkey, const, account, anywhere, fixed, derived, derived_by,
}

abbrev pub authority_address : List ℕ
authority_address = codes "TRNA8iyPm9AuBGiTeSirJm6F4jsxvq66LqfFeU7G4AN"

abbrev pub execute_upgrade : IdlInstruction
execute_upgrade = record {
  name = codes "executeUpgrade";
  discriminator = 205 ∷ 219 ∷ 100 ∷ 218 ∷ 66 ∷ 39 ∷ 215 ∷ 24 ∷ [];
  accounts =
      entry (codes "authorityRecord") false false (
        derived (
          const (codes "trana-authority")
          ∷ account (codes "owner")
          ∷ account (codes "program")
          ∷ []))
      ∷ entry (codes "owner") false true (anywhere)
      ∷ entry (codes "program") true false (anywhere)
      ∷ entry (codes "programData") true false (anywhere)
      ∷ entry (codes "buffer") true false (anywhere)
      ∷ entry (codes "spill") true false (anywhere)
      ∷ entry (codes "rent") false false
          (fixed (codes "SysvarRent111111111111111111111111111111111"))
      ∷ entry (codes "clock") false false
          (fixed (codes "SysvarC1ock11111111111111111111111111111111"))
      ∷ entry (codes "bpfLoader") false false
          (fixed (codes "BPFLoaderUpgradeab1e11111111111111111111111"))
      ∷ entry (codes "tranaGuardProgram") false false
          (fixed (codes "TRAqChewX8boPDuBbVXjS7iCQAnh9gDThfBRwXauwsG"))
      ∷ entry (codes "tranaRegistry") true false (
          derived_by (codes "tranaGuardProgram")
            (const (codes "passkey") ∷ account (codes "owner") ∷ []))
      ∷ entry (codes "instructions") false false
          (fixed (codes "Sysvar1nstructions1111111111111111111111111"))
      ∷ [];
  args = [];
}

abbrev pub reclaim_authority : IdlInstruction
reclaim_authority = record {
  name = codes "reclaimAuthority";
  discriminator = 156 ∷ 147 ∷ 67 ∷ 113 ∷ 251 ∷ 229 ∷ 162 ∷ 166 ∷ [];
  accounts =
      entry (codes "authorityRecord") true false (
        derived (
          const (codes "trana-authority")
          ∷ account (codes "owner")
          ∷ account (codes "target")
          ∷ []))
      ∷ entry (codes "owner") true true (anywhere)
      ∷ entry (codes "target") true false (anywhere)
      ∷ entry (codes "programData") true false (anywhere)
      ∷ entry (codes "newAuthorityInfo") false false (anywhere)
      ∷ entry (codes "bpfLoader") false false
          (fixed (codes "BPFLoaderUpgradeab1e11111111111111111111111"))
      ∷ entry (codes "tranaGuardProgram") false false
          (fixed (codes "TRAqChewX8boPDuBbVXjS7iCQAnh9gDThfBRwXauwsG"))
      ∷ entry (codes "tranaRegistry") true false (
          derived_by (codes "tranaGuardProgram")
            (const (codes "passkey") ∷ account (codes "owner") ∷ []))
      ∷ entry (codes "instructions") false false
          (fixed (codes "Sysvar1nstructions1111111111111111111111111"))
      ∷ entry (codes "systemProgram") false false (fixed (codes "11111111111111111111111111111111"))
      ∷ [];
  args = (codes "newAuthority", prim pubkey) ∷ [];
}

abbrev pub register : IdlInstruction
register = record {
  name = codes "register";
  discriminator = 211 ∷ 124 ∷ 67 ∷ 15 ∷ 211 ∷ 194 ∷ 178 ∷ 240 ∷ [];
  accounts =
      entry (codes "authorityRecord") true false (
        derived (
          const (codes "trana-authority")
          ∷ account (codes "owner")
          ∷ account (codes "target")
          ∷ []))
      ∷ entry (codes "owner") true true (anywhere)
      ∷ entry (codes "target") false false (anywhere)
      ∷ entry (codes "systemProgram") false false (fixed (codes "11111111111111111111111111111111"))
      ∷ [];
  args = [];
}
