-- ===== src/Runtime.antt =====
-- actix/src: the context of an actor, and the future that runs the actor in it.
pub mod Context
pub mod Life
pub mod Loops
pub mod Poll
pub mod Keeping
pub mod Looping
pub mod Rounds
pub mod Delivering
pub mod Lifecycle
mod Examples
