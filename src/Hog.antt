-- ===== src/Hog.antt =====
-- main/src/hog_client.c, the client of the keyboard's HID service: the mouse payloads, the path of an
-- input report to the bridge, and the discovery of the reports.
pub mod Mouse
pub mod Slots
pub mod Input
pub mod Client
pub mod Feature
pub mod Subscribe
pub mod Discovery
pub mod Callbacks
pub mod Reads
