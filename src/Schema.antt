-- ===== src/Schema.antt =====
-- The documents that the services keep, one record for each Mongoose schema
-- (src/modules/*/schemas), and the values of an audit event.
mod Roles
mod ShareRecord
mod Accounts
mod Devices
mod Files
mod Events
mod Certificates
mod Secrets
pub use Roles.*
pub use ShareRecord.*
pub use Accounts.*
pub use Devices.*
pub use Files.*
pub use Events.*
pub use Certificates.*
pub use Secrets.*
