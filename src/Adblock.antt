-- ===== src/Adblock.antt =====
-- src/adblock: the parts of the ad blocker that do not need its engine.
pub mod Commands
pub mod Lists
pub mod Curation
pub mod Classify
