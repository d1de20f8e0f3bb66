-- ===== src/Intent/Payload.antt =====
-- The payload against an independent reader of its documented layout.
use trana.Prelude.{ℕ, ◌^◌, ◌<◌, ◌≡◌, refl}
use trana.Prelude.{List, Option, some, length}
use trana.Bytes.{le_bytes, le_value, split_at, sized, finish, ◌>>=◌}
use trana.Bytes.Endian.{length-le_bytes, le_value-le_bytes, split_at-append, sized-append}
use trana.Intent.{Bound, payload}

-- The layout that the source documents, read front to back; nothing may be left.
-- The expiry is documented as signed; below 2 ^ 63 that is the reading here.
unfoldable pub read_payload : List ℕ → Option Bound
read_payload bytes = do
  (version, r1) ← split_at 1 bytes
  (domain, r2) ← sized 2 r1
  (wallet, r3) ← split_at 32 r2
  (guard, r4) ← split_at 32 r3
  (target, r5) ← split_at 32 r4
  (policy, r6) ← sized 2 r5
  (discriminator, r7) ← split_at 8 r6
  (accounts, r8) ← split_at 32 r7
  (params, r9) ← split_at 32 r8
  (nonce, r10) ← split_at 8 r9
  (expiry, r11) ← split_at 8 r10
  finish r11 (record {
    version = le_value version;
    domain = domain;
    wallet = wallet;
    guard = guard;
    target = target;
    policy = policy;
    discriminator = discriminator;
    accounts = accounts;
    params = params;
    nonce = le_value nonce;
    expiry = le_value expiry;
  })

pub record Fits (b : Bound) : Type 0 where
  pub version : b.version < 256
  pub domain : length b.domain < 65536
  pub wallet : length b.wallet ≡ 32
  pub guard : length b.guard ≡ 32
  pub target : length b.target ≡ 32
  pub policy : length b.policy < 65536
  pub discriminator : length b.discriminator ≡ 8
  pub accounts : length b.accounts ≡ 32
  pub params : length b.params ≡ 32
  pub nonce : b.nonce < 2 ^ 64
  pub expiry : b.expiry < 2 ^ 64

-- The bytes of an intent read back, by their documented layout, to exactly its fields, for keys and
-- hashes of 32 bytes, a discriminator of 8, texts below 2 ^ 16 bytes and numbers that fit.
pub read_payload-payload : (b : Bound) → Fits b → read_payload (payload b) ≡ some b
unfolding read_payload payload
read_payload-payload b f =
    rw (split_at-append (le_bytes 1 b.version) _ 1 (length-le_bytes 1 b.version)) (
      rw (sized-append 2 b.domain _ f.domain) (
        rw (split_at-append b.wallet _ 32 f.wallet) (
          rw (split_at-append b.guard _ 32 f.guard) (
            rw (split_at-append b.target _ 32 f.target) (
              rw (sized-append 2 b.policy _ f.policy) (
                rw (split_at-append b.discriminator _ 8 f.discriminator) (
                  rw (split_at-append b.accounts _ 32 f.accounts) (
                    rw (split_at-append b.params _ 32 f.params) (
                      rw (split_at-append (le_bytes 8 b.nonce) _ 8 (length-le_bytes 8 b.nonce)) (
                        rw (split_at-append (le_bytes 8 b.expiry) _ 8 (length-le_bytes 8 b.expiry))
                          (rw
                            (
                              le_value-le_bytes 1 b.version f.version,
                              le_value-le_bytes 8 b.nonce f.nonce,
                              le_value-le_bytes 8 b.expiry f.expiry,
                            )
                            refl)))))))))))
