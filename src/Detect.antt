-- ===== src/Detect.antt =====
-- crates/mw-sniffer: the detectors of application protocols in packet payloads.
pub mod Ws
pub mod Z21
pub mod Http
pub mod Withrottle
