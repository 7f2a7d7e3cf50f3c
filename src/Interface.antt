-- ===== src/Interface.antt =====
-- The interface layer of include/libprotoserial/interface: fragments, their frames on the wire, the
-- receive buffer and its parser, and the transmit queue.
pub mod Fragment
pub mod Header
pub mod Footer
pub mod Frame
pub mod Queue
pub mod Ring
pub mod Receiver
