-- ===== src/Synchronizer.antt =====
-- pkg/synchronizer/synchronizer.go: archives that are missing from the bucket are found over FTP,
-- downloaded over HTTP and sent to the upload server.
pub mod Connection
pub mod Months
pub mod FileTime
pub mod Dir
pub mod Compile
pub mod Upload
pub mod Schedule
