-- ===== src/Fs/Open.antt =====
-- fs.rs: `open`, `opendir`, `release` and `releasedir`.
use Prim.Native.Nat.{bit_and}
use cultivate.Common.{
  ℕ, ◌+◌, Bool, true, false, Option, none, some, nat_eq, if◌then◌else◌, not, pure, throw, attempt,
  ◌>>=◌, ◌>>◌,
}
use cultivate.Errno.{eacces, einval}
use cultivate.Inode.{Inode, InodeAttributes, inc_file_handle, dec_file_handle}
use cultivate.Fs.{F, Request, get_inode, set_inode}
use cultivate.Fs.Access.{require_access, r_ok, w_ok, x_ok}
use cultivate.Fs.Handle.{allocate_next_file_handle}

abbrev pub o_accmode : ℕ
o_accmode = 3

abbrev pub o_rdonly : ℕ
o_rdonly = 0

abbrev pub o_wronly : ℕ
o_wronly = 1

abbrev pub o_rdwr : ℕ
o_rdwr = 2

abbrev pub o_trunc : ℕ
o_trunc = 0o1000

abbrev pub fmode_exec : ℕ
fmode_exec = 0x20

-- `flags & bit != 0`
abbrev pub has : ℕ → ℕ → Bool
has flags bit = not (nat_eq (bit_and flags bit) 0)

-- What the flags ask for.
pub record Wanted : Type 0 where
  pub access_mask : ℕ
  pub read : Bool
  pub write : Bool

abbrev wants : ℕ → Bool → Bool → F Wanted
wants access_mask read write =
    pure (record { access_mask = access_mask; read = read; write = write })

-- the `match` on the access mode; `exec` is the mask for an internal exec
unfoldable pub access_mode : ℕ → ℕ → F Wanted
access_mode exec flags =
    let mode = bit_and flags o_accmode in
    if nat_eq mode o_rdonly
    then if has flags o_trunc
      then throw eacces
      else wants (if has flags fmode_exec then exec else r_ok) true false
    else if nat_eq mode o_wronly
    then wants w_ok false true
    else if nat_eq mode o_rdwr
    then wants (r_ok + w_ok) true true
    else throw einval

-- what both handlers do with the answer: the file handle, and flags that are always 0
unfoldable pub open_node : Request → Inode → Wanted → F (ℕ × ℕ)
unfolding get_inode require_access set_inode allocate_next_file_handle
open_node req inode wanted = do
  attr ← get_inode inode
  require_access req attr wanted.access_mask
  set_inode (inc_file_handle attr)
  fh ← allocate_next_file_handle wanted.read wanted.write
  pure (fh, 0)

unfoldable pub open_file : Request → Inode → ℕ → F (ℕ × ℕ)
unfolding access_mode open_node
open_file req inode flags = do wanted ← access_mode x_ok flags; open_node req inode wanted

-- `opendir` does not look at the bit for an internal exec.
unfoldable pub opendir : Request → Inode → ℕ → F (ℕ × ℕ)
unfolding access_mode open_node
opendir req inode flags = do wanted ← access_mode r_ok flags; open_node req inode wanted

abbrev pub release_found : Option InodeAttributes → F (Unit {0})
release_found none = pure tt
release_found (some attrs) = set_inode (dec_file_handle attrs)

unfoldable pub release : Inode → F (Unit {0})
unfolding get_inode set_inode
release inode = do found ← attempt (get_inode inode); release_found found

unfoldable pub releasedir : Inode → F (Unit {0})
unfolding release
releasedir inode = release inode
