-- ===== src/Std.antt =====
-- What src/sigmax uses of the C++ standard library: `std::map` and `std::lower_bound`.
pub mod Map
pub mod LowerBound
