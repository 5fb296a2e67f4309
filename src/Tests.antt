-- ===== src/Tests.antt =====
-- Concrete inputs, and each general theorem at one of them.
mod Samples
mod Objects
mod Serving
mod Sessions
mod Daemons
mod Services
mod Clients
mod Mounts
mod WorkingCopies
mod Hashing
mod Naming
mod Commands
mod Whole
