-- ===== src/Handle/Spec.antt =====
-- src/handles: what the operations of every kind of handle promise, as tables: the layout, the call
-- of libuv and the data of a new handle, what a start stores, and whom a report calls.
mod New
mod Start
mod Fire
pub use New.*
pub use Start.*
pub use Fire.*
