-- ===== src/Fs/Create.antt =====
-- fs.rs: `symlink`, `mkdir` and `mknod`.
use Prim.Native.Nat.{bit_and}
use cultivate.Common.{
  ℕ, ◌+◌, ◌-◌, ◌^◌, Bool, Option, none, some, [], Bytes, bytes_key, length, nat_eq, if◌then◌else◌,
  not, ◌&&◌, pure, throw, assert, unwrap, modify, ◌>>=◌, ◌>>◌, is_utf8,
}
use cultivate.HashMap
use cultivate.BTreeMap
use cultivate.Errno.{enosys}
use cultivate.ContentHash.{Blake3}
use cultivate.Object.{empty_symlink, symlink_get_hash}
use cultivate.Inode.Clock.{SystemTime}
use cultivate.Inode.{
  Inode, FileKind, InodeAttributes, FileAttr, file_attr, set_hash, set_size, set_uid, set_gid,
  kind_eq,
}
use cultivate.Mount
use cultivate.Mount.Insert.{dot, dot_dot}
use cultivate.Fs.{F, Request, on_mount, get_inode, set_inode, set_directory_content}
use cultivate.Fs.Access.{require_access, w_ok}
use cultivate.Fs.Node.{
  s_isuid, s_isgid, s_ifmt, s_ifreg, s_iflnk, s_ifdir, unwrap_directory, require_absent,
  creation_gid, as_file_kind, touch, insert_link,
}

-- `to_str().unwrap()`
abbrev pub to_str : Bytes → Option Bytes
to_str path = if is_utf8 path then some path else none

-- `set_uid` and `set_gid` of a new node
unfoldable pub own : Request → InodeAttributes → InodeAttributes → InodeAttributes
unfolding creation_gid
own req parent_attrs attrs = set_gid (creation_gid parent_attrs req.gid) (set_uid req.uid attrs)

unfoldable pub file_type_known : ℕ → Bool
file_type_known mode =
    let file_type = bit_and mode s_ifmt in
    not (
      not (nat_eq file_type s_ifreg)
      && not (nat_eq file_type s_iflnk)
      && not (nat_eq file_type s_ifdir))

-- `if req.uid() != 0 { mode &= !(S_ISUID | S_ISGID) }`
unfoldable pub masked : Request → ℕ → ℕ
masked req mode = if nat_eq req.uid 0 then mode else bit_and mode (2 ^ 32 - 1 - (s_isuid + s_isgid))

module _ (b : Blake3) (now : ℕ → SystemTime) where
  unfoldable pub symlink : Request → Inode → Bytes → Bytes → F FileAttr
  unfolding get_inode require_access touch on_mount Mount.create_new_node own insert_link set_inode
      file_attr
  symlink req parent link_name target = do
    parent_attrs ← get_inode parent
    require_access req parent_attrs w_ok
    parent_attrs' ← touch now parent_attrs
    node ← on_mount (Mount.create_new_node now FileKind.symlink)
    let attrs = set_size (length target) (own req parent_attrs' node)
    insert_link now req parent link_name attrs.inode FileKind.symlink
    text ← unwrap (to_str target)
    let link = record empty_symlink { target = text }
    hash ← unwrap (symlink_get_hash b link)
    modify (λ s. record s {
      store = record s.store { symlinks = HashMap.insert hash link s.store.symlinks };
    })
    let attrs' = set_hash hash attrs
    set_inode attrs'
    pure (file_attr attrs')

module _ (now : ℕ → SystemTime) where
  -- The mode that the code computes from `mode` is not stored, so it is left out here.
  unfoldable pub mkdir : Request → Inode → Bytes → ℕ → F FileAttr
  unfolding require_absent get_inode require_access touch on_mount Mount.create_new_node own
      set_inode unwrap_directory set_directory_content file_attr
  mkdir req parent name mode = do
    require_absent parent name
    parent_attrs ← get_inode parent
    require_access req parent_attrs w_ok
    parent_attrs' ← touch now parent_attrs
    node ← on_mount (Mount.create_new_node now FileKind.directory)
    let attrs = own req parent_attrs' node
    set_inode attrs
    entries ← unwrap_directory parent
    set_directory_content parent (BTreeMap.insert name (attrs.inode, attrs.kind) entries)
    -- create current dir
    set_directory_content attrs.inode (
        BTreeMap.insert dot_dot (parent, FileKind.directory)
          (BTreeMap.insert dot (attrs.inode, FileKind.directory) []))
    -- update parent dir
    entries' ← unwrap_directory parent
    set_directory_content parent (BTreeMap.insert name (attrs.inode, FileKind.directory) entries')
    pure (file_attr attrs)

  unfoldable pub mknod : Request → Inode → Bytes → ℕ → F FileAttr
  unfolding file_type_known require_absent get_inode touch masked as_file_kind on_mount
      Mount.create_new_node own set_inode unwrap_directory set_directory_content file_attr
  mknod req parent name mode = do
    if file_type_known mode then pure tt else throw enosys
    require_absent parent name
    parent_attrs ← get_inode parent
    parent_attrs' ← touch now parent_attrs
    kind ← unwrap (as_file_kind (masked req mode))
    node ← on_mount (Mount.create_new_node now kind)
    let attrs = own req parent_attrs' node
    set_inode attrs
    entries ← unwrap_directory parent
    set_directory_content parent (BTreeMap.insert name (attrs.inode, attrs.kind) entries)
    kind' ← unwrap (as_file_kind (masked req mode))
    assert (not (kind_eq kind' FileKind.directory))
    pure (file_attr attrs)
