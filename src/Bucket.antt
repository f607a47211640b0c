-- ===== src/Bucket.antt =====
-- The directories and files of a bucket: data/src/pathlib.rs, data/src/access/file_access.rs, and
-- the services of node/src/public/service that act on them.
pub mod Paths
pub mod Segments
pub mod State
pub mod Tables
pub mod Counters
pub mod Attempts
pub mod Directories
pub mod Files
pub mod Listing
pub mod Upload
pub mod Rows
pub mod Quiet
pub mod Lookups
pub mod Accounting
pub mod Moves
pub mod Making
pub mod Entering
pub mod Places
pub mod Entries
pub mod Served
pub mod Losses
pub mod Pages
pub mod Trees
pub mod Renames
pub mod Climb
pub mod Ancestors
pub mod Closed
