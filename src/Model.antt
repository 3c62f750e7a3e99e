-- ===== src/Model.antt =====
-- internal/model/types.go: the records that the components exchange. A pointer is an `Option`, `int`
-- is ℤ, a time is the number of nanoseconds since Go's zero time, and the type of float64 is the
-- parameter `F`. A map[string]any and an `any` are a `Json`.
pub mod Chat
pub mod Records
pub mod Session
pub mod Json
pub mod Samples
