-- ===== src/Examples.antt =====
-- Concrete runs of the operations, on small stores, files and requests.
mod Codec
mod Data
mod Access
mod Roles
mod Disk
mod Calls
mod Settings
mod Wire
mod Process
