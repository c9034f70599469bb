-- ===== src/Examples.antt =====
-- Concrete runs of the models: each theorem with hypotheses, applied where they hold, and tests.
pub mod Numbers
pub mod Texts
pub mod Objects
pub mod Sessions
pub mod Deltas
pub mod Rooms
pub mod Packets
pub mod Grids
pub mod Configs
pub mod Managers
pub mod Clients
pub mod Joins
pub mod Marks
pub mod Servers
