-- ===== src/Channel.antt =====
-- The game-channel library (gamechannel/): signed states, state proofs and the rolling state.
pub mod Manager
pub mod Types
pub mod RollingState
pub mod Rules
pub mod SampleGame
pub mod Signatures
pub mod StateProof
mod ManagerTests
mod SessionTests
mod Tests
