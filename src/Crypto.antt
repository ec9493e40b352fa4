-- ===== src/Crypto.antt =====
-- src/common/utils/crypto.util.ts.
pub mod Text
pub mod CryptoUtil
pub mod Secrets
