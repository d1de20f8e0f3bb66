-- ===== src/Lib.antt =====
-- The Trana SDK (packages/sdk) and the site that uses it (apps/landing): a passkey approves one exact
-- Solana instruction, and the guard program checks the approval on chain.
--
-- The parts and how they interact. An intent is built from the guarded instruction and hashed
-- (core/intent.ts over core/sha256.ts); the hash is the challenge of a WebAuthn ceremony
-- (core/webauthn.ts); the signature, the registered key and the authenticator's bytes go into an
-- instruction for the secp256r1 precompile, and the WebAuthn bytes with the expiry and the policy into
-- a data carrier for the guard (core/secp256r1.ts). The guard client (guard/client.ts) composes these.
-- The authority client (authority/client.ts) builds the instructions of the upgrade-authority program.
-- The React layer (react/) has its own conversions, a reader of the registry account, a reader of the
-- program's logs, and a provider that pauses the send flow on promises that the modal settles. The site
-- composes the core by hand: lib/vault.ts encodes and decodes the accounts, and the handlers of
-- app/try/page.tsx deposit, withdraw, upgrade, add a passkey, and hand an upgrade authority over.
--
-- Which file models which part, paths from packages/sdk/src:
--   Prelude, Bytes    numbers, lists, results; Uint8Array, Buffer, DataView, hexadecimal,
--                     base64url, UTF-8, JSON text
--   Sha256            core/sha256.ts: pureSha256 as padded, schedule, round, rounds, blocks, digest
--   Types             core/types.ts: TranaCluster, PROGRAM_IDS, Policy, policyId, PasskeyHandle
--   Idl               types/trana_guard.ts and types/trana_authority.ts: the instructions of the two
--                     programs, and what they mean for the bytes and the accounts of a call
--   Intent            core/intent.ts: buildIntent, hashIntent, intentFromInstruction
--   Secp256r1         core/secp256r1.ts: buildSecp256r1Ix, buildWebAuthnMessage, buildRecordProofIx
--   Webauthn          core/webauthn.ts: registerPasskey, signIntent, spkiToCompressedKey, derToCompact,
--                     normalizeLowS
--   Guard             guard/client.ts: TranaGuardClient, a method per function
--   Authority         authority/client.ts: TranaAuthorityClient, a method per function
--   React.State       react/state.ts: tranaReducer
--   React.Hub         react/provider.tsx: the state, pendingRef and the seven functions of the context
--   React.Watch       react/provider.tsx: the effect that fetches and subscribes to the registry
--   React.Webauthn    react/webauthn.ts: derToCompact, lowS, extractPubkeyFromAttestation, doRegistration,
--                     doApproval
--   React.Intent      react/intent.ts: its own buildIntent, hashIntent and intentFromInstruction
--   React.Send        react/useTrana.ts: authorizeAndSend, first what it prepares, then the send loop
--   React.Registry    react/registry.ts: parseRegistryAccount, fetchRegistry, subscribeRegistry
--   React.Logs        react/detector.ts and react/error.ts
--   React.Modal       react/modal.tsx: humanizeError, buildRegisterIx, handleSetup, handleApprove, the
--                     amount of the confirmation, and which modal a phase shows; Session is the
--                     approvals over time, with the provider
--   React.Nudge       react/useBackupNudge.ts: the effect, the timer and the dismissal
--   React.Passkeys    react/useTranaPasskeys.ts
--   Policy            policy.ts and requirement.ts: policyString, evaluatePolicy, checkRequirement
--   Testing           testing/index.ts: generateTestPasskey, buildTestProofIx, ensureLowS
--   Tests             concrete inputs
-- and from apps/landing:
--   Landing.Vault     lib/vault.ts: the addresses, the readers of the pool and of a deposit, and the
--                     builders of the four instructions
--   Landing.Registry  lib/vault.ts: fetchRegistryNonce, fetchAllPasskeys, fetchFirstPasskey
--   Landing.Status    app/try/page.tsx: the policy that the page shows; Landing.Status.Program sets it
--                     against withdraw of programs/trana_test_vault/src/lib.rs
--   Landing.Page      app/try/page.tsx: handleDeposit and handleWithdraw (Withdraw, over Guards, Steps
--                     and Proof), handleUpgradeLeak, handleUpgradePasskey, handleGenerateCredential and
--                     handleAddPasskey (Manage), handleAuthSecure (Secure; with the authority
--                     client in Secure.Upgradable)
--
-- The React send flow calls the two builders of packages/sdk/src/secp256r1.ts, which build the same
-- instructions as core/secp256r1.ts and are modelled by them. The state of the provider is a record
-- (React.Hub.Hub) that each call maps to the next one; its effect, the nudge and the approvals over time
-- are a record and a step per event, in any order that the events may come in. A handler of the page is a computation over the
-- state of the page (Landing.Page.Run), in which every call of the wallet, the browser and the RPC is a
-- moment of its own, so that they may answer differently each time. The other parts keep no state, and
-- their exceptions are results.
--
-- Text is a list of code points and a byte array a list of numbers. Parameters stand for what is not in
-- the repository: base58 (KeyText, which inverts its own text form), uninitialised memory (Memory),
-- program ids (Ids, Programs), address derivation (Addresses), the browser (Navigator), the curve of
-- the test proofs (Curve), the RPC, the wallet and Anchor (Host, Anchor, Chain, Accounts, Connection, World, Env). Number fields keep the
-- width that the source writes, so a number too large for its field wraps, and the theorems name the
-- bound below which it does not.
--
-- Bounds and fuel: hexadecimal text of a difference has fuel for 64 digits, which holds each side of a
-- difference of two numbers below 2 ^ 256; the loops of SHA-256 have the counts of the source, and its
-- loop over blocks has one step per 64 bytes, for messages below 2 ^ 31 - 72 bytes, from which on the
-- source throws; the send loop has the two attempts of the source.
--
-- Not modelled: markup and styles, the other modules at the root of packages/sdk/src (a server's
-- client, redirects, older copies), what the interface descriptions say of accounts, events and errors, the pages and panels of the site without logic of their own, the example, and the Rust
-- programs, whose layouts appear as readers.
pub mod Prelude
pub mod Bytes
pub mod Sha256
pub mod Types
pub mod Idl
pub mod Intent
pub mod Secp256r1
pub mod Webauthn
pub mod Guard
pub mod Authority
pub mod React
pub mod Landing
pub mod Policy
pub mod Testing
mod Tests
