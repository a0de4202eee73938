-- ===== src/Lib.antt =====
-- leptos_ntex: the parts of the ntex integration of Leptos that decide, as pure functions, what
-- is admitted, what is served and what is accepted from the wire.
--
-- The files are src/static_routes/policy.rs and src/static_routes/storage.rs (limits of
-- statically generated sites: Policy, Storage), src/fs_boundary.rs (paths below a root:
-- Boundary; lock entries: Storage.Opening), src/static_routes.rs (the work behind a static
-- entry: Work; its static_path: Paths; published pages and their metadata: Snapshots),
-- src/files.rs (request paths: Paths; negotiation: Files), src/config.rs (Config), src/routes.rs
-- (Routes), src/request.rs (Requests), src/response.rs (Responses), src/server_fn/registry.rs
-- and src/server_fn/handlers.rs (ServerFn) and src/server_fn/websocket.rs (WebSocket). A site's
-- policy is bound to the runtimes that generate it (Policy.Bindings); generation takes permits
-- from the policy's pools (Policy.Pool) and publishes pages through the site's storage, which
-- admits a publication by the site's usage, the configured limits and the generation in the
-- control record (Storage.Publication, Storage.Inventory, Storage.Accounting, Storage.Record),
-- which the policy's installation writes and every publication reads first (Storage.Opening); a
-- publisher without a policy only looks for one (Storage.Publication.Unmanaged). The page's path
-- is static_path, and request paths are resolved by safe_subpath (Paths), whose answer
-- open_static_file turns into a variant of the file (Files). Requests for one static entry find
-- one work (Work.Registry) and wait for its result (Work.State); a published page is read
-- together with its metadata, while others publish (Snapshots). Handlers reach the native
-- request through handles whose scope owns it (Requests). A server function is found by path and
-- method (ServerFn.Registry); what it answers has its redirects repaired and guarded, and is
-- joined with the application's response options (ServerFn.Dispatch, Responses).
--
-- Base passes on the library's names and holds the shared tests, lists, bytes and results; Io is
-- std::io::Error. Operations keep the source's names. State that the source keeps behind a mutex
-- or a root lock is an argument and a result, and what can happen in any order is a step
-- relation with the histories of it: Policy.Pool.System for permits and futures, whose polls
-- take the pool's lock twice, Work.State.History for a work, Storage.Publication.Processes for
-- processes that open and share a site, killed ones included, Storage.Opening.Later for what is
-- written to a control file, Snapshots.Publishes for the files of a page, and Requests.History
-- for scopes and handles on any threads; there a drop of a handle is one step.
--
-- A number is a natural number; the sums that the source checks are checked at u64::MAX here
-- too, and a subtraction that could underflow is an Option. The walk over a site's directories
-- has fuel by the size of the tree, and Storage.Inventory.Laws proves that this is enough.
-- Panics are `none`.
--
-- Arguments, since they are not of this repository: header maps (the interface
-- Headers.HeaderMap, with a list that satisfies it), parsers of URIs and media ranges,
-- percent-decoding, UTF-8 validation, base64, the parsers of numbers, ntex's WebSocket codec,
-- and the answers of the filesystem (canonicalize, metadata, listings, reads and writes). A path
-- is its list of components, and a waker, a policy handle or a runtime is its address. A weight
-- of Accept-Encoding is the bit pattern of its f32.
--
-- Not modelled: rendering, streaming and the services of ntex and Leptos; and the parts that
-- decide nothing (conversions, Display).
pub mod Base
pub mod Io
pub mod Storage
pub mod Policy
pub mod Paths
pub mod Files
pub mod Boundary
pub mod Routes
pub mod Work
pub mod Config
pub mod Requests
pub mod Headers
pub mod Responses
pub mod Snapshots
pub mod ServerFn
pub mod WebSocket
pub mod Tests
