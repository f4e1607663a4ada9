-- ===== src/Ingest.antt =====
-- src/ingest: how chain data gets in.
pub mod SlotLayout
pub mod Pipeline
pub mod Multicall
pub mod Backend
pub mod RpcBackend
pub mod Discovery
pub mod FeeProbe
pub mod Fees
pub mod Bootstrap
