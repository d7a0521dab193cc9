-- ===== src/Greylist.antt =====
-- src/greylist: behavioural greylisting and the proof-of-work toll.
pub mod Ip
pub mod Detection
pub mod Crawler
pub mod ActiveSet
pub mod Table
pub mod Sweep
pub mod Challenge
pub mod Toll
pub mod Endpoint
