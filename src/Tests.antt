-- ===== src/Tests.antt =====
-- Tests of the definitions, and the theorems at concrete inputs.
mod Tftp
mod Transfer
mod Tlv
mod Chores
mod Example
mod Http
mod Servers
mod Site
mod Programs
mod Logs
mod Modules
mod Writers
mod Counts
mod Service
