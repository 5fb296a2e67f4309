-- ===== src/Tests/Whole.antt =====
-- A daemon that mounts a working copy, and a request to it.
use cultivate.Common.{true, if◌then◌else◌, ◌≡◌, refl, none, [], ◌>>=◌, bytes_eq, arith}
use cultivate.Daemon
use cultivate.Daemon.{Daemon, Session, initialize_repo, with_lock}
use cultivate.Mount
use cultivate.Mount.Insert.{set_root_tree, insert_tree, insert_entries}
use cultivate.Store.{get_tree}
use cultivate.Object.Encoding.{encode_tree}
use cultivate.Inode.{new_attributes}
use cultivate.Fs.{new, on_mount, get_inode}
use cultivate.Fs.Listing.{init}
use cultivate.Fs.Valid.Serving.{made_directory}
use cultivate.Fs.Valid.Start.{untouched}
use cultivate.Service
use cultivate.Service.Calls.{Call, Stays, serve}
use cultivate.Session.{fs_of}
use cultivate.System.{AllValid, Event, called, started, requested, begin, followed, written_back}
use cultivate.System.Keeping.{Reaches-AllValid}
use cultivate.System.Growing.{Reaches-Stays}
use cultivate.Daemon.Locks.{files_lock}
use cultivate.Tests.Samples.{sample_hash, sample_store, clock, user, two_entries}
use cultivate.Tests.Objects.{sample_store-tree}
use cultivate.Tests.Daemons.{sample_prost, willing, home}
use cultivate.Tests.Serving.{initial, made, docs, runs}

abbrev unmounted : Daemon
unmounted = Daemon.new sample_store

unmounted-AllValid : AllValid unmounted
unfolding Daemon.new
unmounted-AllValid = record { at = λ path m h. cc }

abbrev session : Session
session = record { mountpoint = home; next_file_handle = 1 }

abbrev mounted : Daemon
mounted =
    (serve sample_hash sample_prost willing (Call.initialize (record { path = home })) unmounted).1

abbrev begun : Daemon
begun =
    written_back session
      (init clock 1 (fs_of mounted (untouched none none sample_store.empty_tree_id 0) 1)).1 [] []
      mounted

abbrev enlarged : Daemon
enlarged = written_back session made [] [] begun

abbrev mounting : Event sample_hash sample_prost willing clock two_entries unmounted mounted
mounting = called (Call.initialize (record { path = home })) refl

starting : Event sample_hash sample_prost willing clock two_entries mounted begun
unfolding Daemon.new serve Service.initialize initialize_repo with_lock Mount.new ◌>>=◌ bytes_eq
    encode_tree cultivate.Store.get_empty_tree_id
starting =
    started [] [] session none none sample_store.empty_tree_id 0 0 refl refl sample_store-tree refl

-- What the session has before `mkdir`, and that `mkdir` is answered.
making : Event sample_hash sample_prost willing clock two_entries begun enlarged
unfolding Daemon.new serve Service.initialize initialize_repo with_lock Mount.new ◌>>=◌ bytes_eq
    encode_tree cultivate.Store.get_empty_tree_id init get_inode on_mount Mount.get_inode
    set_root_tree insert_tree insert_entries new get_tree Mount.allocate_inode Mount.set_inode
    Mount.set_directory_content Mount.new_node Mount.time_now new_attributes
making =
    requested [] [] session initial.mount made refl refl
      (made_directory user 1 docs 0o755 (omega (arith, runs.1)) runs.0) refl

Reaches-AllValid_example : AllValid enlarged
Reaches-AllValid_example =
    Reaches-AllValid sample_hash sample_prost willing clock two_entries unmounted-AllValid
      (followed (followed (followed begin mounting) starting) making)

Reaches-Stays_example :
    Stays
      (unmounted.store.files sample_store.empty_tree_id)
      (enlarged.store.files sample_store.empty_tree_id)
    × Stays
        (unmounted.store.symlinks sample_store.empty_tree_id)
        (enlarged.store.symlinks sample_store.empty_tree_id)
    × Stays
        (unmounted.store.trees sample_store.empty_tree_id)
        (enlarged.store.trees sample_store.empty_tree_id)
    × Stays
        (unmounted.store.commits sample_store.empty_tree_id)
        (enlarged.store.commits sample_store.empty_tree_id)
    × Stays (unmounted.mounts home) (enlarged.mounts home)
    × ((if unmounted.poisoned files_lock then enlarged.poisoned files_lock else true) ≡ true)
Reaches-Stays_example =
    Reaches-Stays sample_hash sample_prost willing clock two_entries sample_store.empty_tree_id home
      files_lock (followed (followed (followed begin mounting) starting) making)
