-- ===== src/Gateway.antt =====
-- The payment gateway (Assignment2/P3-Strife/gateway): users and their rights, balances,
-- transaction records, the banks it speaks to, and payments by one step or by two-phase commit.
pub mod Balances
pub mod Transactions
pub mod Banking
pub mod State
pub mod Config
pub mod TwoPhase
pub mod Auth
pub mod Interceptors
pub mod Payment
pub mod Monitoring
pub mod Calls
pub mod Server
pub mod Tests
pub mod TransactionStorage
