-- ===== src/Common.antt =====
-- lib/common/src/common.hpp: the helpers that every firmware target shares.
pub mod Time
pub mod Analog
pub mod ErrorState
pub mod FileName
pub mod Backoff
pub mod DeltaCounter
