-- ===== src/Examples.antt =====
-- A small RakNet made for the purpose, and runs of the model on it.
mod Ids
mod World
mod Mailboxes
mod Routing
mod Calls
mod Setup
mod Peers
mod Attempts
mod Loops
mod Composed
mod Tasks
mod Answers
mod Turns
mod Blocks
mod Connects
