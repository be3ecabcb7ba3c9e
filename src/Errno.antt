-- ===== src/Errno.antt =====
-- The error numbers that the file operations return: `rustix::io::Errno`, as far as it is used in
-- crates/icloud-core/src/fs.rs and by the system calls below it.
pub data Errno : Type 0 where
  noent rofs access isdir notdir exist notempty busy io nametoolong inval : Errno
