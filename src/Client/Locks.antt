-- ===== src/Client/Locks.antt =====
-- cli/src/blocking_client.rs: the two mutexes that each method locks, one after the other.
--
-- Threads that share a client are numbered. A state says who holds each mutex and where each thread
-- is; a thread's next step is a function, which gives nothing where the thread has to wait. The guards
-- are dropped in the reverse of the order in which they were taken.
pub mod Held
pub mod Progress
pub mod Deadlock
use cultivate.Common.{ℕ, ◌≡◌, Bool, true, false, Option, none, some, nat_eq, if◌then◌else◌}

pub data Mutex : Type 0 where
  client : Mutex
  rt : Mutex

pub data Method : Type 0 where
  get_tree_state : Method
  initialize : Method
  set_checkout_state : Method
  get_checkout_state : Method
  snapshot : Method
  write_commit : Method
  read_commit : Method
  write_file : Method
  read_file : Method
  write_tree : Method
  read_tree : Method
  write_symlink : Method
  read_symlink : Method
  get_empty_tree_id : Method

-- Which mutex a method locks first; it locks the other next.
unfoldable pub client_first : Method → Bool
client_first get_tree_state = true
client_first initialize = true
client_first set_checkout_state = true
client_first get_checkout_state = true
client_first snapshot = true
client_first write_commit = true
client_first read_commit = true
client_first write_file = true
client_first read_file = true
client_first write_tree = true
client_first read_tree = true
client_first write_symlink = true
client_first read_symlink = true
client_first get_empty_tree_id = false

-- The methods other than `get_empty_tree_id`.
abbrev pub is_other : Method → Bool
is_other get_empty_tree_id = false
is_other _ = true

abbrev pub first_mutex : Bool → Mutex
first_mutex true = client
first_mutex false = rt

abbrev pub second_mutex : Bool → Mutex
second_mutex true = rt
second_mutex false = client

pub data Pc : Type 0 where
  idle : Pc
  locking_first : Method → Pc
  locking_second : Method → Pc
  running : Method → Pc
  returning : Method → Pc

pub record State : Type 0 where
  pub held : Mutex → Option ℕ
  pub pc : ℕ → Pc

abbrev pub init : State
init = record { held = λ l. none; pc = λ i. idle }

abbrev pub mutex_eq : Mutex → Mutex → Bool
mutex_eq client client = true
mutex_eq client rt = false
mutex_eq rt client = false
mutex_eq rt rt = true

abbrev pub go : ℕ → Pc → State → State
go i p s = record s { pc = λ j. if nat_eq i j then p else s.pc j }

abbrev pub hold : Mutex → Option ℕ → State → State
hold l o s = record s { held = λ k. if mutex_eq l k then o else s.held k }

-- `lock` by a thread that goes to `p` with the mutex
abbrev pub lock : ℕ → Mutex → Pc → Option ℕ → State → Option State
lock i l p none s = some (go i p (hold l (some i) s))
lock i l p (some j) s = none

-- The step of a thread at some place; `m` is the method that it calls where it is idle.
abbrev pub move_from : ℕ → Method → Pc → State → Option State
move_from i m idle s = some (go i (locking_first m) s)
move_from i m (locking_first called) s =
    let l = first_mutex (client_first called) in lock i l (locking_second called) (s.held l) s
move_from i m (locking_second called) s =
    let l = second_mutex (client_first called) in lock i l (running called) (s.held l) s
move_from i m (running called) s =
    some (go i (returning called) (hold (second_mutex (client_first called)) none s))
move_from i m (returning called) s =
    some (go i idle (hold (first_mutex (client_first called)) none s))

unfoldable pub move : ℕ → Method → State → Option State
unfolding client_first
move i m s = move_from i m (s.pc i) s

-- The states that threads come to which call only the methods that pass a test.
pub data Reach (allowed : Method → Bool) (s : State) : State → Type 0 where
  start : Reach allowed s s
  later :
      {t u : State} (i : ℕ) (m : Method)
      → Reach allowed s t
      → allowed m ≡ true
      → move i m t ≡ some u
      → Reach allowed s u
