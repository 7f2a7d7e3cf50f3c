-- ===== src/Ports.antt =====
-- The port layer of include/libprotoserial/ports: packets, and the handler that carries them
-- between services and interfaces. A subscriber is not modelled: an emitted event is a returned
-- value.
pub mod Packet
pub mod Header
pub mod Handler
