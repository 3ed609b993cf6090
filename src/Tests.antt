-- ===== src/Tests.antt =====
-- Tests: the definitions on concrete inputs, and every theorem with conditions applied to one.
mod Identities
mod JobRuns
mod OneDisk
mod Collisions
mod CommandLines
mod Catalogs
mod Sessions
mod HostFiles
mod Screens
mod Selections
mod Scans
