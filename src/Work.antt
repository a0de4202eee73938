-- ===== src/Work.antt =====
-- src/static_routes.rs: the work behind one static entry: who waits for it, what it renders next,
-- when it ends, and under which keys it is found.
pub mod State
pub mod Registry
