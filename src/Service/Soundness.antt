-- ===== src/Service/Soundness.antt =====
-- app/service.py: the state of the database between two transactions.
mod Defs
mod Claims
mod Batches
mod Results
mod Creation
pub use Defs.*
pub use Claims.*
pub use Batches.*
pub use Results.*
pub use Creation.*
