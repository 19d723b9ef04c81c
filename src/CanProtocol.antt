-- ===== src/CanProtocol.antt =====
-- The CAN wire formats of lib/canHandler/src, shared by the gateway and the nodes.
pub mod Bytes
pub mod Frame
pub mod OtaFrame
pub mod IdAssign
mod Tests
