-- ===== src/Tests.antt =====
-- The theorems at concrete inputs, and runs of the operations.
mod Data
mod Control
mod Requests
mod Frames
mod Serving
mod Setup
mod Threads
mod Whole
