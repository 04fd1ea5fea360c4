-- ===== src/Hand.antt =====
-- services/engine/internal/application: the three use cases of a hand. What a use case calls outside the
-- engine's core, the repository, the event publisher and the clock, is a record of answers; what it sends
-- to them is a list of effects in the order of the calls. Metrics have no influence and are left out.
mod Events
pub mod Start
pub mod Act
pub mod Finish
pub use Events.*
