-- ===== src/Fragmentation.antt =====
-- The fragmentation layer of include/libprotoserial/fragmentation: transfers, their identifiers and
-- their fragments.
pub mod IdFactory
pub mod Transfer
pub mod FragmentHeader
pub mod TransferHandler
pub mod BaseHandler
pub mod Bypass
