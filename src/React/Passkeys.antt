-- ===== src/React/Passkeys.antt =====
-- packages/sdk/src/react/useTranaPasskeys.ts: what an application sees of the registered passkeys.
use trana.Prelude.{ℕ, List, [], ◌∷◌, Option, none, some, Bool, true, ltb, length, codes}
use trana.Prelude.Result.{Result, err}
use trana.React.Registry.{RegistryState}

pub record PasskeyEntry : Type 0 where
  pub label : List ℕ
  pub credential_id : List ℕ
  pub pubkey : List ℕ
  pub added_at : ℕ
  pub is_primary : Bool

unfoldable pub passkeys : Option RegistryState → List PasskeyEntry
passkeys none = []
passkeys (some registry) =
    record {
      label = codes "Primary Device";
      credential_id = registry.credential_id;
      pubkey = registry.pubkey;
      added_at = 0;
      is_primary = true;
    }
    ∷ []

unfoldable pub has_backup : Option RegistryState → Bool
has_backup registry = ltb 1 (length (passkeys registry))

pub data NotYet : Type 0 where
  not_yet : NotYet

-- `addPasskey`, `removePasskey` and `initiateRecovery` all throw.
unfoldable pub manage : Result NotYet (Unit {0})
manage = err not_yet
