-- ===== src/React.antt =====
-- packages/sdk/src/react: the browser side of the SDK.
pub mod State
pub mod Hub
pub mod Watch
pub mod Webauthn
pub mod Logs
pub mod Registry
pub mod Intent
pub mod Send
pub mod Modal
pub mod Nudge
pub mod Passkeys
