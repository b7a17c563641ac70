-- ===== src/HdWallet.antt =====
-- internal/hdwallet/hdwallet.go: derivation paths, and key derivation along a path. BIP-32 itself
-- (hdkeychain) and HMAC-SHA512 are parameters.
pub mod Curve
pub mod Path
pub mod Derive
