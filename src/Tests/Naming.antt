-- ===== src/Tests/Naming.antt =====
-- Names made and looked up in a small file system.
use cultivate.Common.{
  Bytes, ◌≡◌, refl, some, List, [], ◌∷◌, ok, err, arith, ◌>>=◌, bytes_eq, bytes_compare, none,
}
use cultivate.BTreeMap
use cultivate.Errno.{eexist, enoent}
use cultivate.Mount
use cultivate.Mount.Insert.{set_root_tree, insert_tree, insert_entries, dot}
use cultivate.Store.{get_tree}
use cultivate.ContentHash.{to_le_bytes}
use cultivate.Object.Encoding.{encode_tree}
use cultivate.Inode.Clock.{time_from_system_time, as_i64}
use cultivate.Inode.{FileKind, FileType, new_attributes, file_type, FileAttr}
use cultivate.Fs.{new, on_mount, get_inode, Fs}
use cultivate.Fs.Listing.{init}
use cultivate.Fs.Node.{s_ifreg, as_file_kind}
use cultivate.Fs.Create.{file_type_known, masked, symlink}
use cultivate.Fs.Names.{view, entry}
use cultivate.Fs.Names.Runs.{
  NameCall, look, stat, make_dir, make_symlink, make_file, replies, served, described, shown_run,
  replies-described, replies_keep,
}
use cultivate.Mount.{DirectoryDescriptor}
use cultivate.Fs.Content.{readlink}
use cultivate.Fs.Names.Targets.{readlink-symlink}
use cultivate.Tests.Samples.{sample_hash, clock, user}
use cultivate.Tests.Serving.{initial, initial-IsValid, docs, note_name}

abbrev link_name : Bytes
link_name = b'l' ∷ []

-- A directory, a name that is taken, a file in the directory, a look at it and at nothing; a link under a
-- taken name, which spends a number, a link and another directory.
abbrev calls : List NameCall
calls =
    make_dir user 1 docs 0o755
    ∷ make_file user 1 docs s_ifreg
    ∷ make_file user 2 note_name s_ifreg
    ∷ look 2 note_name
    ∷ look 3 note_name
    ∷ make_symlink user 2 note_name docs
    ∷ make_symlink user 2 link_name docs
    ∷ make_dir user 1 link_name 0o755
    ∷ stat 5
    ∷ []

abbrev root_names : DirectoryDescriptor
root_names = (dot, (1, FileKind.directory)) ∷ []

replied_names :
    (initial.mount.next_inode ≡ 2)
    × ((replies (described sample_hash clock) calls (view initial)).0
        ≡ ok (2, FileType.directory)
          ∷ err eexist
          ∷ ok (3, FileType.regular_file)
          ∷ ok (3, FileType.regular_file)
          ∷ err enoent
          ∷ err eexist
          ∷ ok (5, FileType.symlink)
          ∷ ok (6, FileType.directory)
          ∷ ok (5, FileType.symlink)
          ∷ [])
    × (entry (view initial) 1 dot ≡ some (1, FileKind.directory))
    × (initial.mount.directories 1 ≡ some root_names)
    × (BTreeMap.get note_name root_names ≡ none)
unfolding cultivate.Common.is_utf8 init set_root_tree insert_tree insert_entries get_tree new
    Mount.new get_inode on_mount Mount.get_inode Mount.time_now Mount.set_inode Mount.new_node
    new_attributes Mount.allocate_inode Mount.set_directory_content BTreeMap.insert BTreeMap.get
    bytes_eq bytes_compare ◌>>=◌ encode_tree to_le_bytes file_type_known masked as_file_kind
    file_type time_from_system_time as_i64 view
replied_names = (refl, refl, refl, refl, refl)

replies-described_example :
    shown_run sample_hash clock calls initial
    ≡ replies (described sample_hash clock) calls (view initial)
replies-described_example =
    replies-described sample_hash clock calls initial initial-IsValid
      (omega (arith, replied_names.0))

replies_keep_example :
    entry (view (replies (served sample_hash clock) calls initial).1) 1 dot
    ≡ some (1, FileKind.directory)
replies_keep_example =
    replies_keep sample_hash clock calls initial 1 dot (1, FileKind.directory) initial-IsValid
      (omega (arith, replied_names.0)) replied_names.2

readlink-symlink_example :
    (attr : FileAttr) × (t : Fs) × (symlink sample_hash clock user 1 note_name docs initial
      ≡ (ok attr, t))
    × (readlink attr.ino t ≡ (ok docs, t))
unfolding cultivate.Common.is_utf8
readlink-symlink_example =
    readlink-symlink sample_hash clock user 1 note_name docs initial initial-IsValid
      (omega (arith, replied_names.0)) root_names replied_names.3 replied_names.4 refl
