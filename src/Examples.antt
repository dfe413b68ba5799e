-- ===== src/Examples.antt =====
-- Small states at which the theorems apply.
mod Paging
mod Physical
mod Process
mod Setup
mod Text
mod System
mod Tables
mod Hardware
mod Pictures
mod Programs
