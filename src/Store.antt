-- ===== src/Store.antt =====
-- internal/store: the in-memory implementation of the interface Store, and what its clients see of it.
pub mod Memory
