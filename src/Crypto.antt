-- ===== src/Crypto.antt =====
-- crypto.h and crypto.cpp.
pub mod Adler
pub mod Xtea
pub mod Rsa
pub mod Service
