-- ===== src/Errno.antt =====
-- The error codes of libc that the file system replies with.
pub data Errno : Type 0 where
  enoent eexist eacces enotempty einval ebadf enametoolong enosys : Errno
