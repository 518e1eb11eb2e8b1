-- ===== src/Client.antt =====
-- The client of Strife (Assignment2/P3-Strife/client).
pub mod Queue
pub mod Processor
pub mod Manager
pub mod Interceptors
pub mod Login
pub mod App
pub mod Session
pub mod TransactionCache
