-- ===== src/Server.antt =====
-- vpn_server/internal/server: the server's state, its handlers and its packet path.
pub mod Parse
pub mod Metrics
pub mod State
pub mod Sessions
pub mod Requests
pub mod Forward
pub mod Delivery
pub mod Ownership
pub mod Assignment
pub mod Cleanup
pub mod Reconnect
pub mod Admission
pub mod Steps
pub mod Change
pub mod Tenancy
pub mod Refinement
pub mod Start
pub mod Shutdown
pub mod Hosting
pub mod Clients
pub mod Proxy
pub mod Filtering
pub mod Echo
pub mod Offset
pub mod Connection
pub mod Processor
pub mod Processing
pub mod Shares
pub mod Dispatch
pub mod Status
pub mod Logs
pub mod Api
pub mod Queries
pub mod Certificates
pub mod MutualTls
pub mod Listener
pub mod Serving
pub mod Main
pub mod Exits
mod Tests
mod RunTests
mod ConnectionTests
mod OffsetTests
mod EchoTests
mod StartTests
mod ApiTests
mod MainTests
