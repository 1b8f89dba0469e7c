-- ===== src/Ffi.antt =====
-- The C side of CertiCoq's foreign-function benchmarks (benchmarks/regex, benchmarks/hash).
pub mod Strings
pub mod Build
pub mod Regex
pub mod Match
pub mod Io
pub mod Table
mod Sample
mod Tests
