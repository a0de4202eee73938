-- ===== src/ServerFn.antt =====
-- src/server_fn: the registry of server functions, and the dispatch of their requests.
pub mod Registry
pub mod Dispatch
