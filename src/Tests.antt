-- ===== src/Tests.antt =====
-- Runs of the definitions on concrete inputs, and the theorems at concrete inputs.
mod Scans
mod Values
mod Texts
mod Arguments
mod Refining
mod Tables
mod Pointers
mod Jobs
mod Memories
mod Sessions
mod Api
