-- ===== src/Fs/Names.antt =====
-- fs.rs: the tree of names that a mount shows, apart from times, owners, permissions and contents: which
-- inodes there are, of which kind, what the names in a directory stand for, and the next number.
-- `lookup`, `getattr`, `mkdir`, `mknod` and `symlink` as functions of that alone.
pub mod Calls
pub mod States
pub mod Parents
pub mod Filling
pub mod Making
pub mod Nodes
pub mod Inserting
pub mod Linking
pub mod Targets
pub mod Looking
pub mod Growing
pub mod Runs
use cultivate.Common.{
  ℕ, ◌+◌, ◌%◌, ◌^◌, Bool, true, false, Option, none, some, Bytes, bytes_eq, length, ltb, nat_key,
  if◌then◌else◌, Outcome, ok, err, panic, Run, ◌>>=?◌,
}
use cultivate.HashMap
use cultivate.HashMap.{HashMap}
use cultivate.BTreeMap
use cultivate.Errno.{Errno, enoent, eexist, enosys, enametoolong}
use cultivate.Mount.Insert.{dot, dot_dot}
use cultivate.Inode.{Inode, FileKind, FileType, FileAttr, file_type}
use cultivate.Fs.{Fs}

-- What the names of one directory stand for.
abbrev pub Names : Type 0
Names = Bytes → Option (Inode × FileKind)

pub record Namespace : Type 0 where
  pub kinds : HashMap Inode FileKind
  pub names : HashMap Inode Names
  pub next : Inode

-- What a handler shows: an inode and its kind.
abbrev pub Shown : Type 0
Shown = Inode × FileType

abbrev pub N : Type 0
N = Run Namespace Errno Shown

abbrev pub entry : Namespace → Inode → Bytes → Option (Inode × FileKind)
entry n d name = n.names d >>=? λ c. c name

-- A directory in which one name got a new meaning.
abbrev pub named : Bytes → Inode × FileKind → Names → Names
named name v c other = if bytes_eq name other then some v else c other

-- The next number goes to a new inode.
abbrev pub allocated : FileKind → Namespace → Namespace
allocated kind n = record n {
  kinds = HashMap.insert n.next kind n.kinds;
  next = (n.next + 1) % 2 ^ 64;
}

-- A new inode under a name of a directory with these names.
abbrev pub linked : FileKind → Inode → Bytes → Names → Namespace → Namespace
linked kind parent name c n = record n {
  kinds = HashMap.insert n.next kind n.kinds;
  names = HashMap.insert parent (named name (n.next, kind) c) n.names;
  next = (n.next + 1) % 2 ^ 64;
}

-- A new directory, which names itself and its parent.
abbrev pub nested : Inode → Bytes → Names → Namespace → Namespace
nested parent name c n = record n {
  kinds = HashMap.insert n.next FileKind.directory n.kinds;
  names =
      HashMap.insert n.next
        (named dot_dot (parent, FileKind.directory)
          (named dot (n.next, FileKind.directory) (λ other. none)))
        (HashMap.insert parent (named name (n.next, FileKind.directory) c) n.names);
  next = (n.next + 1) % 2 ^ 64;
}

abbrev pub found : Option (Inode × FileKind) → N
found none n = (err enoent, n)
found (some (i, kind)) n = (ok (i, file_type kind), n)

abbrev pub look_up : Inode → Bytes → N
look_up parent name n =
    if ltb 140 (length name) then (err enametoolong, n) else found (entry n parent name) n

abbrev pub get_kind : Inode → N
get_kind i n = found (n.kinds i >>=? λ kind. some (i, kind)) n

-- From the entry under the name, the kind of the parent, and the names in it.
abbrev pub directory_made :
    Inode → Bytes → Option (Inode × FileKind) → Option FileKind → Option Names → N
directory_made parent name (some e) _ _ n = (err eexist, n)
directory_made parent name none none _ n = (err enoent, n)
directory_made parent name none (some k) none n = (panic, allocated FileKind.directory n)
directory_made parent name none (some k) (some c) n =
    (ok (n.next, FileType.directory), nested parent name c n)

abbrev pub make_directory : Inode → Bytes → N
make_directory parent name n =
    directory_made parent name (entry n parent name) (n.kinds parent) (n.names parent) n

-- A reply, but the handler panics at a directory.
abbrev pub shown : Inode → FileKind → Outcome Errno Shown
shown i FileKind.file = ok (i, FileType.regular_file)
shown i FileKind.directory = panic
shown i FileKind.symlink = ok (i, FileType.symlink)

abbrev pub node_made :
    Inode → Bytes → Option FileKind → Option (Inode × FileKind) → Option FileKind → Option Names → N
node_made parent name _ (some e) _ _ n = (err eexist, n)
node_made parent name _ none none _ n = (err enoent, n)
node_made parent name none none (some k) _ n = (panic, n)
node_made parent name (some kind) none (some k) none n = (panic, allocated kind n)
node_made parent name (some kind) none (some k) (some c) n =
    (shown n.next kind, linked kind parent name c n)

-- `known`: the file type of the mode is one of those supported; `kind`: the kind that it says.
abbrev pub make_node : (known : Bool) (kind : Option FileKind) → Inode → Bytes → N
make_node false kind parent name n = (err enosys, n)
make_node true kind parent name n =
    node_made parent name kind (entry n parent name) (n.kinds parent) (n.names parent) n

abbrev pub link_made :
    Inode → Bytes → Bool → Option FileKind → Option (Inode × FileKind) → Option Names → N
link_made parent name _ none _ _ n = (err enoent, n)
link_made parent name _ (some k) (some e) _ n = (err eexist, allocated FileKind.symlink n)
link_made parent name _ (some k) none none n = (panic, allocated FileKind.symlink n)
link_made parent name false (some k) none (some c) n =
    (panic, linked FileKind.symlink parent name c n)
link_made parent name true (some k) none (some c) n =
    (ok (n.next, FileType.symlink), linked FileKind.symlink parent name c n)

-- `storable`: the target is text. The number is taken before the name is looked at.
abbrev pub make_link : (storable : Bool) → Inode → Bytes → N
make_link storable parent name n =
    link_made parent name storable (n.kinds parent) (entry n parent name) (n.names parent) n

-- What a state of the file system shows.
unfoldable pub view : Fs → Namespace
view s = record {
  kinds = λ i. s.mount.nodes i >>=? λ a. some a.kind;
  names = λ i. s.mount.directories i >>=? λ es. some (λ name. BTreeMap.get name es);
  next = s.mount.next_inode;
}

abbrev pub shown_reply : Outcome Errno FileAttr → Outcome Errno Shown
shown_reply (ok a) = ok (a.ino, a.kind)
shown_reply (err e) = err e
shown_reply panic = panic

-- What a handler's reply and the state it leaves show.
abbrev pub observe : Outcome Errno FileAttr × Fs → Outcome Errno Shown × Namespace
observe p = (shown_reply p.0, view p.1)
