-- ===== src/Worker.antt =====
-- worker/src/main.rs: the arguments of the worker and the clients that it lets in. Texts are their
-- code points.
pub mod Arguments
pub mod Thumbprints
pub mod Offers
mod Tests
