-- ===== src/Store.antt =====
-- The encrypted hash table of src/include/store.h, with the hash over its buckets of
-- src/include/crypt/release/encrypt_openssl.h. Put_front is off, as by default, and KEY_ACCESS is
-- BitKey.
pub mod Hash
pub mod Table
pub mod Positions
pub mod Find
pub mod Put
pub mod Get
mod Tests
