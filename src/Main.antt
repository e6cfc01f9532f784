-- ===== src/Main.antt =====
-- main.go: the address of the webhook server, and the order in which the operator is set up.
pub mod Address
pub mod Setup
