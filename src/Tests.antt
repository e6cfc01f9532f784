-- ===== src/Tests.antt =====
-- Concrete servers, libraries and objects: what the theorems say at inputs that meet their hypotheses.
mod Sorting
mod Strings
mod Sample
mod Examples
mod Values
mod Factories
mod Process
mod Starts
mod Convergence
mod Storing
mod Copies
mod Clients
mod Draining
mod Access
mod Watching
mod Living
mod Sessions
mod Lifetimes
