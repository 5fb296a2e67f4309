-- ===== src/Lib.antt =====
-- A verification library for cultivate: a daemon that keeps jj's objects in a content store and serves
-- a working copy of them as a FUSE file system, and the client through which jj uses the daemon.
--
-- The parts, and where they are modelled:
--   ContentHash, ContentHash/*   daemon-old/src/content_hash.rs: what a value feeds to the hasher
--   Object, Object/*, Store, Store/*   daemon-old/src/store.rs: objects, their hashes and messages, and
--     the maps from ids to objects
--   Proto   proto/jj_interface.proto: the messages
--   Inode, Inode/*, Mount, Mount/*   daemon-old/src/mount_store.rs: attributes and times, and the
--     inodes and directories of one mount
--   Fs, Fs/*   daemon-old/src/fs.rs: `CultivateFS`, one function for each handler of the trait
--     `Filesystem` under the handler's name (`open` is `open_file`). Fs/Names is an abstract view of it,
--     the tree of names, with the creating handlers as functions of that tree
--   Daemon, Daemon/*   daemon-old/src/repo_manager.rs: `RepoManager`, with the state that the daemon's
--     services share and the locks that a panic poisons
--   Service, Service/*   daemon-old/src/service/backend.rs: the handlers of the daemon's service
--     (Service/Control: daemon-old/src/service/control.rs)
--   Session, Session/*   daemon-old/src/repo_manager.rs with fs.rs: reads and writes in the sessions that
--     share the mutex of files
--   System, System/*   daemon-old/src/main.rs: the whole daemon, its service and its file systems at work
--   Jujutsu, Jujutsu/*   daemon/src/service.rs and daemon/src/store.rs: the daemon that is to come
--   Client, Client/*   cli/src/blocking_client.rs: the remote calls, and the two mutexes of a client
--   Backend, Backend/*   cli/src/backend.rs: `CultivateBackend`, and the conversions between jj's
--     objects and the messages
--   WorkingCopy, WorkingCopy/*   cli/src/working_copy.rs: `CultivateWorkingCopy` and the locked copy that
--     a mutation works on
--   Cli, Cli/*   cli/src/main.rs: the subcommand `cultivate` and the factories that jj is given
--   Jj   what the client uses of jj_lib and zstd
--   Errno   the error codes of libc that handlers reply
--   BTreeMap, HashMap   what the code uses of std's maps
--   Common, Common/*   tests, lists, byte strings, runs and bits, shared by all
--   Tests, Tests/*   stand-ins for outside code, and the theorems at concrete inputs
--
-- How they interact: a handler of `Fs` reads and writes the mount, and reads and writes the maps of
-- the store that the mount shares with the daemon. The store hashes objects with ContentHash. A
-- handler of `Service` works on the same store and, by the path of a working copy, on a mount.
-- `Client` knows a daemon as the record `Server`, one operation for each remote call;
-- `Client.Served.daemon` is the service of daemon-old as a server: it takes its messages from a module
-- `proto::backend` that the repository does not have, and which is taken for the messages of
-- jj_interface.proto. The daemon that is to come speaks jj_interface.proto, and panics when it is
-- asked to initialize (Jujutsu/Calls). `Backend` and `WorkingCopy` call the client.
--
-- How state is modelled. A handler is a function `Run Fs Errno A`: from a state to an outcome (a
-- value, an error code, or a panic) and the state it leaves, errors and panics included. The FUSE
-- library calls one handler at a time. The fields behind locks are plain fields; a lock is held inside
-- one handler. `read` and `write` may panic while they hold the store's mutex of files, which all
-- sessions and the service share: `Session` has them as requests to the daemon that take it and may
-- poison it. An inode's attributes are copied out of the map and put back by `set_inode`, as the code
-- clones them.
--
-- A handler of `Service` is a function `Run Daemon Status A`. It runs on a task, and a panic ends the
-- task and not the daemon; where a lock's guard is held across code that may panic, the state says
-- whether the lock is poisoned, and locking a poisoned lock panics. Calls are taken one at a time: a
-- request that comes while another is served is not modelled. `System.Event` puts calls of the service
-- and requests to the mounted file systems one after the other, in any order: requests that are
-- answered, and reads that panic, which end their session. An answered request is an event also where
-- a lock that it takes is poisoned, at which the code panics: the events allow more than the code does
-- there, so what holds of every state that they lead to holds of the code's, up to the first panic of
-- a request other than a read. A method of the client runs on the state of the daemon behind it; the
-- caller of a call that panics gets a status. `Client.Locks` is apart: a step relation of threads that
-- share one client, with who holds which mutex and where each thread is.
--
-- Outside code. The crate `blake3` is the record `Blake3` with the laws that its documentation states;
-- the clock is a function from the number of the reading to a `SystemTime`; fuser's `ReplyDirectory`
-- is the record of that name; `Prost` is prost's encoding of messages, `Platform` the answer of the
-- operating system to a mount, `Zstd` the compression, `Merges` and `Trees` jj's types of those names
-- with the laws of their documentation; `Workspaces` is jj's making of a workspace, with the order in
-- which it runs the program's initializers (jj writes into the working copy meanwhile), and `Machine`
-- what a command asks of the machine. None is given a definition outside Tests.
--
-- Bounds and fuel. Numbers are natural numbers with the wrap-around of their width written out (the
-- inode and handle counters at 2 ^ 64, link counts at 2 ^ 32); sums that debug builds check are taken
-- as in release builds. `insert_tree` follows ids through the store and takes fuel for its depth; it
-- panics without. The tree that `init` inserts is the empty one, which has no subtrees, so that one
-- unit is enough.
--
-- Not modelled: the set-up of logging and of the servers in the `main` functions, and `connect` of the
-- blocking client, which are I/O of tonic; the command line of the client, which is jj's; a request
-- other than a read whose panic ends its session, among the events of `System`; the messages of
-- control.rs, whose definitions the repository does not have; the poison that the handler `symlink`
-- leaves on the mutex of symlinks where a target is not UTF-8; logging; the unit tests; and generated
-- protocol code.
mod Common
pub mod HashMap
pub mod BTreeMap
pub mod ContentHash
pub mod Proto
pub mod Object
pub mod Store
pub mod Inode
pub mod Errno
pub mod Mount
pub mod Fs
pub mod Daemon
pub mod Service
pub mod Client
pub mod Jujutsu
pub mod Jj
pub mod Backend
pub mod WorkingCopy
pub mod Cli
pub mod Session
pub mod System
pub mod Tests
