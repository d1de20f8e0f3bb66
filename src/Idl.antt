-- ===== src/Idl.antt =====
-- packages/sdk/src/types: what an Anchor interface description holds, and what it means
-- for a call: the bytes of its arguments and the places of its accounts. Borsh encodes a number with
-- its lowest byte first, text and bytes behind their length, and a variant behind its place.
pub mod Guard
pub mod Calls
pub mod Authority
use trana.Prelude.{
  ℕ, List, [], ◌∷◌, ◌++◌, ◌≡◌, Option, none, some, Bool, map, if◌then◌else◌, get_elem?,
}
use trana.Prelude.Equality.{same}
use trana.Bytes.{le_value, split_at, sized, finish, ◌>>=◌}
use trana.Types.{KeyText, AccountMeta, Instruction}

pub data Primitive : Type 0 where
  u8 u64 i64 pubkey string bytes : Primitive

pub data IdlType : Type 0 where
  prim : Primitive → IdlType
  defined : (name : List ℕ) → IdlType

pub data Seed : Type 0 where
  const : (value : List ℕ) → Seed
  account : (path : List ℕ) → Seed

-- Where an account must be: anywhere, at an address, or at one derived from seeds, for the program
-- itself or for one that is named among the accounts.
pub data Place : Type 0 where
  anywhere : Place
  fixed : (address : List ℕ) → Place
  derived : (seeds : List Seed) → Place
  derived_by : (program : List ℕ) → (seeds : List Seed) → Place

pub record IdlAccount : Type 0 where
  pub name : List ℕ
  pub writable : Bool
  pub signer : Bool
  pub place : Place

abbrev pub entry : (name : List ℕ) → (writable signer : Bool) → Place → IdlAccount
entry name writable signer place = record {
  name = name;
  writable = writable;
  signer = signer;
  place = place;
}

pub record IdlInstruction : Type 0 where
  pub name : List ℕ
  pub discriminator : List ℕ
  pub accounts : List IdlAccount
  pub args : List (List ℕ × IdlType)

pub record IdlVariant : Type 0 where
  pub name : List ℕ
  pub fields : List (List ℕ × Primitive)

pub record IdlEnum : Type 0 where
  pub name : List ℕ
  pub variants : List IdlVariant

pub data Atom : Type 0 where
  num : ℕ → Atom
  buf : List ℕ → Atom

pub data Value : Type 0 where
  atom : Atom → Value
  variant : (tag : ℕ) → (fields : List Atom) → Value

-- A signed number is read as its bit pattern.
unfoldable pub read_primitive : Primitive → List ℕ → Option (Atom × List ℕ)
read_primitive u8 bs = do (front, rest) ← split_at 1 bs; some (num (le_value front), rest)
read_primitive u64 bs = do (front, rest) ← split_at 8 bs; some (num (le_value front), rest)
read_primitive i64 bs = do (front, rest) ← split_at 8 bs; some (num (le_value front), rest)
read_primitive pubkey bs = do (front, rest) ← split_at 32 bs; some (buf front, rest)
read_primitive string bs = do (front, rest) ← sized 4 bs; some (buf front, rest)
read_primitive bytes bs = do (front, rest) ← sized 4 bs; some (buf front, rest)

unfoldable pub read_fields : List (List ℕ × Primitive) → List ℕ → Option (List Atom × List ℕ)
read_fields [] bs = some ([], bs)
read_fields ((name, p) ∷ fields) bs = do
  (a, rest) ← read_primitive p bs
  (atoms, rest') ← read_fields fields rest
  some (a ∷ atoms, rest')

unfoldable pub find_enum : (name : List ℕ) → List IdlEnum → Option IdlEnum
find_enum name [] = none
find_enum name (e ∷ enums) = if same e.name name then some e else find_enum name enums

unfoldable pub read_type : List IdlEnum → IdlType → List ℕ → Option (Value × List ℕ)
read_type enums (prim p) bs = do (a, rest) ← read_primitive p bs; some (atom a, rest)
read_type enums (defined name) bs = do
  e ← find_enum name enums
  (front, rest) ← split_at 1 bs
  v ← get_elem? e.variants (le_value front)
  (atoms, rest') ← read_fields v.fields rest
  some (variant (le_value front) atoms, rest')

-- The values of the arguments, with nothing left behind them.
unfoldable pub read_args : List IdlEnum → List (List ℕ × IdlType) → List ℕ → Option (List Value)
read_args enums [] bs = finish bs []
read_args enums ((name, t) ∷ args) bs = do
  (v, rest) ← read_type enums t bs
  values ← read_args enums args rest
  some (v ∷ values)

-- A call of an instruction, from the data: its discriminator, then its arguments.
unfoldable pub read_call : List IdlEnum → IdlInstruction → List ℕ → Option (List Value)
read_call enums instruction bs = do
  (front, rest) ← split_at 8 bs
  if same front instruction.discriminator then read_args enums instruction.args rest else none

-- What the meaning of a description rests on: base58 and address derivation.
pub record Resolver : Type 0 where
  pub keys : KeyText
  pub find_program_address : (seeds : List (List ℕ)) → (program : List ℕ) → List ℕ
  pub program : List ℕ

-- The keys of a call by the names of the description.
abbrev pub named : List IdlAccount → List AccountMeta → List (List ℕ × List ℕ)
named [] metas = []
named (a ∷ accounts) [] = []
named (a ∷ accounts) (m ∷ metas) = (a.name, m.pubkey) ∷ named accounts metas

unfoldable pub key_named : (path : List ℕ) → List (List ℕ × List ℕ) → List ℕ
key_named path [] = []
key_named path ((name, key) ∷ rest) = if same name path then key else key_named path rest

abbrev pub seed_bytes : List (List ℕ × List ℕ) → Seed → List ℕ
seed_bytes names (const value) = value
seed_bytes names (account path) = key_named path names

abbrev pub IsAt : Resolver → List (List ℕ × List ℕ) → Place → (key : List ℕ) → Type 0
IsAt r names anywhere key = Unit {0}
IsAt r names (fixed address) key = r.keys.of_base58 address ≡ some key
IsAt r names (derived seeds) key =
    key ≡ r.find_program_address (map (seed_bytes names) seeds) r.program
IsAt r names (derived_by program seeds) key =
    key ≡ r.find_program_address (map (seed_bytes names) seeds) (key_named program names)

-- The accounts of a call, in the order of the description, each with its flags and in its place.
abbrev pub Fit : Resolver → List (List ℕ × List ℕ) → List IdlAccount → List AccountMeta → Type 0
Fit r names [] [] = Unit {0}
Fit r names [] (m ∷ metas) = ⊥
Fit r names (a ∷ accounts) [] = ⊥
Fit r names (a ∷ accounts) (m ∷ metas) =
    (m.is_writable ≡ a.writable)
    × (m.is_signer ≡ a.signer)
    × IsAt r names a.place m.pubkey
    × Fit r names accounts metas

-- An instruction is a call of a described one with these values.
pub record IsCall (r : Resolver) (enums : List IdlEnum) (described : IdlInstruction)
    (values : List Value) (ix : Instruction) : Type 0 where
  pub addressed : ix.program_id ≡ r.program
  pub arguments : read_call enums described ix.payload ≡ some values
  pub accounts : Fit r (named described.accounts ix.keys) described.accounts ix.keys
