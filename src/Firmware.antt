-- ===== src/Firmware.antt =====
-- components/smoker_platform/src/firmware_update_support.cpp: versions, images, deadlines, and the
-- state of an update.
pub mod Version
pub mod Image
pub mod Deadline
pub mod Coordinator
