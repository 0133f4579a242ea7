-- ===== src/Storage.antt =====
-- storage/: the hot store of samples and their export to cold files.
pub mod Keys
pub mod Json
pub mod Values
pub mod Partition
pub mod Writer
pub mod Export
pub mod ColdFiles
pub mod Loop
pub mod Shared
pub mod Open
