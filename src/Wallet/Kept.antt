-- ===== src/Wallet/Kept.antt =====
-- That the calls of services/wallet-service keep its books, part by part.
pub mod Repository
pub mod Chain
pub mod Service
pub mod Runner
pub mod Reachable
