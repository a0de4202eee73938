-- ===== src/Policy.antt =====
-- src/static_routes/policy.rs: limits, errors, permits and policy bindings of static work.
pub mod Errors
pub mod Pool
pub mod Bindings
