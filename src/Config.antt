-- ===== src/Config.antt =====
-- src/vds_config.cc and src/vds_profile.hh.
pub mod Ports
pub mod Records
pub mod Db
pub mod Paths
pub mod Validation
pub mod Addresses
pub mod Lookup
pub mod Invariant
pub mod RoundTrip
pub mod Total
pub mod Selection
mod Tests
