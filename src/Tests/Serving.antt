-- ===== src/Tests/Serving.antt =====
-- A small file system: the root, a directory, and a file that is written and read.
use cultivate.Fs.Rename.{rename}
use cultivate.Fs.Rename.Moves.{entry_at}
use cultivate.Fs.Rename.Whole.{rename-entry_at}
use cultivate.Common.{
  inr, if◌then◌else◌, nat_eq, ◌&&◌, ◌⊎◌, ℕ, ◌^◌, ◌+◌, ◌≤◌, ◌≡◌, ◌↔◌, refl, sym, ap, true, false,
  none, some, List, [], ◌∷◌, Bytes, length, take, drop, max, arith, ok, ◌%◌, pos, ◌>>=◌, bytes_eq,
  bytes_compare,
}
use mathlib.Core.Path.{subst}
use cultivate.BTreeMap
use cultivate.Mount
use cultivate.Mount.Insert.{dot_dot, set_root_tree, insert_tree, insert_entries}
use cultivate.Store.{get_tree}
use cultivate.ContentHash.{to_le_bytes}
use cultivate.Object.Encoding.{encode_tree}
use cultivate.Inode.Clock.{time_from_system_time, as_i64}
use cultivate.Fs.Handle.{check_file_handle_read, check_file_handle_write, allocate_next_file_handle}
use cultivate.Fs.Content.{read, write, cursor_write}
use cultivate.Fs.Content.Cursor.{cursor_write-Overlay}
use cultivate.Fs.Content.Laws.{
  Written, Contains, content_of, read-write, read_offset, write-Written,
}
use cultivate.Inode.{kind_eq, new_attributes, InodeAttributes, FileKind}
use cultivate.Fs.{
  Fs, new, on_mount, get_inode, get_directory_content, set_inode, set_directory_content,
  lookup_name,
}
use cultivate.Fs.Access.{check_access, require_access}
use cultivate.Fs.Node.{require_absent, touch, unwrap_directory, creation_gid, as_file_kind, s_ifreg}
use cultivate.Fs.Create.{mkdir, mknod, own, masked, file_type_known}
use cultivate.Fs.Listing.{init, readdir, DirEntry}
use cultivate.Fs.Listing.Resume.{listing, Full, readdir-listing}
use cultivate.Fs.Access.Bits.{Covers, class_bits, check_access-Covers, check_access_root}
use cultivate.Fs.Handle.Bits.{handle_rights}
use cultivate.Common.Bits.{bit}
use cultivate.Mount.{DirectoryDescriptor}
use cultivate.Fs.Valid.{IsValid}
use cultivate.Fs.Valid.Start.{init-IsValid}
use cultivate.Fs.Valid.Serving.{
  Reachable, start, next, made_directory, made_node, Reachable-IsValid, Answers,
}
use cultivate.Tests.Samples.{sample_hash, sample_store, clock, user, two_entries}
use cultivate.Tests.Objects.{sample_store-tree}

init-IsValid_example :
    (t : Fs) × (init clock 1 (new sample_store (Mount.new sample_store 0)) ≡ (ok tt, t)) × IsValid t
init-IsValid_example = init-IsValid clock sample_store 0 0 sample_store-tree

abbrev pub initial : Fs
initial = (init clock 1 (new sample_store (Mount.new sample_store 0))).1

pub initial-IsValid : IsValid initial
initial-IsValid =
    let (t, run, valid) = init-IsValid clock sample_store 0 0 sample_store-tree in
    subst IsValid (sym (ap (λ r. r.1) run)) valid

abbrev pub docs : Bytes
docs = b'd' ∷ []

abbrev pub made : Fs
made = (mkdir clock user 1 docs 0o755 initial).1

-- In it, a file.
abbrev pub note_name : Bytes
note_name = b'n' ∷ []

abbrev pub noted : Fs
noted = (mknod clock user 2 note_name s_ifreg made).1

abbrev pub write_handle : ℕ
write_handle = 2 ^ 62 + 1

abbrev pub read_handle : ℕ
read_handle = 2 ^ 63 + 2

abbrev hello : Bytes
hello = b'h' ∷ b'i' ∷ []

abbrev pub note : InodeAttributes
note = record {
  inode = 3;
  hash = none;
  open_file_handles = 0;
  size = 0;
  last_accessed = (pos 10, 0);
  last_modified = (pos 11, 0);
  last_metadata_changed = (pos 12, 0);
  kind = FileKind.file;
  mode = 0o777;
  hardlinks = 1;
  uid = 1000;
  gid = 100;
  xattrs = [];
}

-- What the runs of `mkdir` and `mknod` give.
pub runs :
    Answers (mkdir clock user 1 docs 0o755) initial made
    × (initial.mount.next_inode ≡ 2)
    × Answers (mknod clock user 2 note_name s_ifreg) made noted
    × (made.mount.next_inode ≡ 3)
    × (noted.mount.next_inode ≡ 4)
    × (noted.mount.nodes 3 ≡ some note)
    × (content_of noted 3 ≡ some [])
    × (check_file_handle_write write_handle ≡ true)
    × (check_file_handle_read read_handle ≡ true)
    × (noted.next_file_handle ≡ 1)
    × (noted.mount.directories 1
        ≡ some ((b'.' ∷ [], (1, FileKind.directory)) ∷ (docs, (2, FileKind.directory)) ∷ []))
    × (noted.mount.directories 2
        ≡ some (
            (b'.' ∷ [], (2, FileKind.directory))
            ∷ (b'.' ∷ b'.' ∷ [], (1, FileKind.directory))
            ∷ (note_name, (3, FileKind.file))
            ∷ []))
unfolding init set_root_tree insert_tree insert_entries get_tree new Mount.new mkdir require_absent
    lookup_name get_directory_content get_inode on_mount Mount.get_inode Mount.get_directory_content
    require_access check_access touch Mount.time_now set_inode Mount.set_inode Mount.create_new_node
    Mount.new_node new_attributes Mount.allocate_inode own creation_gid unwrap_directory
    set_directory_content Mount.set_directory_content BTreeMap.insert BTreeMap.get bytes_eq
    bytes_compare ◌>>=◌ encode_tree to_le_bytes mknod file_type_known masked as_file_kind content_of
    check_file_handle_write check_file_handle_read time_from_system_time as_i64
runs = ((tt, refl), refl, (tt, refl), refl, refl, refl, refl, refl, refl, refl, refl, refl)

reached : Reachable sample_hash clock two_entries initial noted
reached =
    next {t = made}
      (next {t = initial} start (made_directory user 1 docs 0o755 (omega (arith, runs.1)) runs.0))
      (made_node user 2 note_name s_ifreg (omega (arith, runs.3)) runs.2)

noted-IsValid : IsValid noted
noted-IsValid = Reachable-IsValid sample_hash clock two_entries initial-IsValid reached

Reachable-IsValid_example : IsValid noted
Reachable-IsValid_example = Reachable-IsValid sample_hash clock two_entries initial-IsValid reached

read-write_example :
    (t : Fs) × (write sample_hash clock 3 write_handle (pos 0) hello noted ≡ (ok 2, t))
    × (read 3 read_handle (pos 0) 10 t ≡ (ok (take 10 (cursor_write [] 0 hello)), t))
read-write_example =
    read-write sample_hash clock 3 write_handle 0 hello [] note read_handle 10 noted runs.5 refl
      runs.6 runs.7 runs.8 (omega arith)

-- The file after the write.
hello-Written :
    (t : Fs) × (write sample_hash clock 3 write_handle (pos 0) hello noted ≡ (ok 2, t))
    × Written noted t 3 (cursor_write [] 0 hello) 2
hello-Written =
    write-Written sample_hash clock 3 write_handle 0 hello [] note noted runs.5 refl runs.6 runs.7

hello-Contains : Contains hello-Written.0 3 hello
unfolding cursor_write
hello-Contains = hello-Written.2.contains

read_offset_example : read 3 read_handle (pos 1) 10 hello-Written.0 ≡ (ok (0 ∷ []), hello-Written.0)
read_offset_example =
    read_offset 3 read_handle 1 10 hello hello-Written.0 hello-Contains (omega arith) runs.8

write-Written_example :
    (t : Fs) × (write sample_hash clock 3 write_handle (pos 1) hello noted ≡ (ok 2, t))
    × Written noted t 3 (cursor_write [] 1 hello) 3
write-Written_example =
    write-Written sample_hash clock 3 write_handle 1 hello [] note noted runs.5 refl runs.6 runs.7

cursor_write-Overlay_example :
    (length (cursor_write hello 3 hello) ≡ 5)
    × (take 2 (drop 3 (cursor_write hello 3 hello)) ≡ hello)
    × (drop 5 (cursor_write hello 3 hello) ≡ [])
    × (take 3 (cursor_write hello 3 hello) ≡ b'h' ∷ b'i' ∷ 0 ∷ [])
cursor_write-Overlay_example = cursor_write-Overlay hello 3 hello

handle_rights_example :
    (fh : ℕ) × (allocate_next_file_handle true false noted
      ≡ (ok fh, record noted { next_file_handle = noted.next_file_handle + 1 }))
    × (check_file_handle_read fh ≡ true)
    × (check_file_handle_write fh ≡ false)
    × (fh % 2 ^ 62 ≡ noted.next_file_handle)
handle_rights_example = handle_rights noted true false (omega (arith, runs.9))

check_access-Covers_example :
    (check_access 1000 100 0o640 1001 100 4 ≡ true) ↔ Covers (class_bits 1000 100 0o640 1001 100) 4
check_access-Covers_example =
    check_access-Covers 1000 100 0o640 1001 100 4 (omega arith) (omega arith)

check_access_root_example :
    (check_access 1000 100 0o640 0 0 7 ≡ true)
    ↔ (bit 0 7 ≤ max (bit 6 0o640) (max (bit 3 0o640) (bit 0 0o640)))
check_access_root_example = check_access_root 1000 100 0o640 0 7

abbrev root_entries : DirectoryDescriptor
root_entries = (b'.' ∷ [], (1, FileKind.directory)) ∷ (docs, (2, FileKind.directory)) ∷ []

readdir-listing_example :
    (r : List DirEntry) × (n : ℕ) × (readdir two_entries 1 (pos 1) [] noted ≡ (ok r, noted))
    × (r ≡ take n (drop 1 (listing 0 root_entries)))
    × ((2 ≤ 1 + n) ⊎ Full two_entries r)
readdir-listing_example = readdir-listing two_entries 1 1 root_entries [] noted runs.10

abbrev docs_entries : DirectoryDescriptor
docs_entries =
    (b'.' ∷ [], (2, FileKind.directory))
    ∷ (b'.' ∷ b'.' ∷ [], (1, FileKind.directory))
    ∷ (note_name, (3, FileKind.file))
    ∷ []

docs_are_there : BTreeMap.get docs root_entries ≡ some (2, FileKind.directory)
unfolding BTreeMap.get bytes_compare bytes_eq
docs_are_there = refl

root_has_no_note : BTreeMap.get note_name root_entries ≡ none
unfolding BTreeMap.get bytes_compare bytes_eq
root_has_no_note = refl

-- The directory gets another name.
rename-entry_at_example :
    (t : Fs) × (rename clock user 1 docs 1 note_name 0 noted ≡ (ok tt, t))
    × ((d : ℕ) (n : Bytes)
        → entry_at t d n ≡ (
            if kind_eq FileKind.directory FileKind.directory && (nat_eq 2 d && bytes_eq dot_dot n)
            then some (1, FileKind.directory)
            else if nat_eq 1 d && bytes_eq note_name n
            then some (2, FileKind.directory)
            else if nat_eq 1 d && bytes_eq docs n
            then none
            else entry_at noted d n))
rename-entry_at_example =
    rename-entry_at clock user 1 docs 1 note_name 0 2 FileKind.directory root_entries root_entries
      noted noted-IsValid runs.10 docs_are_there runs.10 root_has_no_note
      (inr (docs_entries, runs.11)) refl
