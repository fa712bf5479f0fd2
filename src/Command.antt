-- ===== src/Command.antt =====
-- The handlers of the requests, src/server/command_*.c: one module for each file.
pub mod Reply
pub mod Keys
pub mod Deletes
pub mod Puts
mod Tests
pub mod Failures
pub mod Cut
pub mod Transactions
pub mod Gets
pub mod Selects
pub mod Ping
pub mod Del
pub mod Drop
pub mod Get
pub mod Listing
pub mod Lists
pub mod Put
pub mod Setdb
pub mod StartStop
