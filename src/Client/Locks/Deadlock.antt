-- ===== src/Client/Locks/Deadlock.antt =====
-- cli/src/blocking_client.rs: `get_empty_tree_id` beside a method that locks the client first.
use cultivate.Common.{
  ℕ, ◌≡◌, ◌≢◌, refl, ap, Bool, true, false, Option, none, some, nat_eq, nat_eq_iff, Bool-cases, inl,
  inr,
}
use native.Mathlib.Omega.{arith}
use mathlib.Core.Path.{subst}
use cultivate.Client.Locks.Held.{client_first-is_other}
use cultivate.Client.Locks.{
  Mutex, client, rt, Method, get_empty_tree_id, client_first, is_other, first_mutex, second_mutex,
  Pc, idle, locking_first, locking_second, running, returning, State, init, go, hold, lock,
  move_from, move, Reach, start, later,
}

abbrev pub any : Method → Bool
any m = true

-- Thread `i` has called `get_empty_tree_id`, thread `j` has called `m`, and each has its first mutex.
abbrev called_first_two : ℕ → ℕ → Method → State
called_first_two i j m = go j (locking_first m) (
    go i (locking_second get_empty_tree_id)
      (hold rt (some i) (go i (locking_first get_empty_tree_id) init)))

abbrev pub crossed : ℕ → ℕ → Method → State
crossed i j m = go j (locking_second m) (hold client (some j) (called_first_two i j m))

nat_eq_refl : (i : ℕ) → nat_eq i i ≡ true
nat_eq_refl i = (nat_eq_iff i i).1 refl

Reach-first_two :
    (i j : ℕ) (m : Method) → nat_eq i j ≡ false → Reach any init (called_first_two i j m)
unfolding move
Reach-first_two i j m apart =
    let s₁ = go i (locking_first get_empty_tree_id) init in
    let s₂ = go i (locking_second get_empty_tree_id) (hold rt (some i) s₁) in
    let r₂ : Reach any init s₂ =
      later {t = s₁} i get_empty_tree_id (later {t = init} i get_empty_tree_id start refl refl) refl
        (rw (nat_eq_refl i) refl) in
    later {t = s₂} j m r₂ refl (rw apart refl)

Reach-crossed :
    (i j : ℕ) (m : Method)
    → nat_eq i j ≡ false
    → client_first m ≡ true
    → Reach any init (crossed i j m)
unfolding move
Reach-crossed i j m apart first =
    later {t = called_first_two i j m} j m (Reach-first_two i j m apart) refl
      (rw (nat_eq_refl j, first) refl)

is_waiting : Pc → Bool
is_waiting (running m) = false
is_waiting (returning m) = false
is_waiting _ = true

-- Both mutexes are held, by threads that wait, and no thread is past its second lock.
record Stuck (i j : ℕ) (m : Method) (s : State) : Type 0 where
  empty_tree : s.pc i ≡ locking_second get_empty_tree_id
  other : s.pc j ≡ locking_second m
  held : (l : Mutex) → (k : ℕ) × (s.held l ≡ some k)
  waiting : (k : ℕ) → is_waiting (s.pc k) ≡ true

lock_held :
    (k i : ℕ) (l : Mutex) (p : Pc) (o : Option ℕ) (s t : State)
    → o ≡ some k
    → lock i l p o s ≡ some t
    → ⊥
lock_held k i l p none s t held moved = cc
lock_held k i l p (some x) s t held moved = cc

Stuck-some : {i j : ℕ} {m : Method} (s t : State) → Stuck i j m s → some s ≡ some t → Stuck i j m t
Stuck-some {i} {j} {m} s t stuck e = let same : s ≡ t = cc in subst (Stuck i j m) same stuck

-- A thread that is waiting for its second mutex is not the idle one that calls.
elsewhere :
    (k i : ℕ) (p : Pc) (c : Method) (s : State)
    → s.pc k ≡ idle
    → s.pc i ≡ locking_second c
    → (go k p s).pc i ≡ locking_second c
elsewhere k i p c s calls waits = elim (Bool-cases (nat_eq k i)) [
  | inl same ↦ (let here = ap (λ x. s.pc x) ((nat_eq_iff k i).0 same) in cc)
  | inr other ↦ rw other waits
]

move_from-Stuck :
    (k : ℕ) (c : Method) (p : Pc) (i j : ℕ) (m : Method) (s t : State)
    → s.pc k ≡ p
    → Stuck i j m s
    → is_waiting p ≡ true
    → move_from k c p s ≡ some t
    → Stuck i j m t
unfolding is_waiting
move_from-Stuck k c idle i j m s t at stuck waits moved =
    Stuck-some _ t
      (record {
        empty_tree = elsewhere k i (locking_first c) get_empty_tree_id s at stuck.empty_tree;
        other = elsewhere k j (locking_first c) m s at stuck.other;
        held = stuck.held;
        waiting = λ x. elim (Bool-cases (nat_eq k x)) [
          | inl same ↦ rw same refl
          | inr other ↦ rw other (stuck.waiting x)
        ];
      })
      moved
move_from-Stuck k c (locking_first d) i j m s t at stuck waits moved =
    let l = first_mutex (client_first d) in
    let (x, held) = stuck.held l in
    absurd (lock_held x k l (locking_second d) (s.held l) s t held moved)
move_from-Stuck k c (locking_second d) i j m s t at stuck waits moved =
    let l = second_mutex (client_first d) in
    let (x, held) = stuck.held l in absurd (lock_held x k l (running d) (s.held l) s t held moved)
move_from-Stuck k c (running d) i j m s t at stuck waits moved = cc
move_from-Stuck k c (returning d) i j m s t at stuck waits moved = cc

crossed_held : (i j : ℕ) (m : Method) (l : Mutex) → (k : ℕ) × ((crossed i j m).held l ≡ some k)
crossed_held i j m client = (j, refl)
crossed_held i j m rt = (i, refl)

crossed-Stuck :
    (i j : ℕ) (m : Method) → nat_eq i j ≡ false → nat_eq j i ≡ false → Stuck i j m (crossed i j m)
unfolding is_waiting
crossed-Stuck i j m apart apart' = record {
  empty_tree = rw (apart', nat_eq_refl i) refl;
  other = rw (nat_eq_refl j) refl;
  held = crossed_held i j m;
  waiting = λ x. elim (Bool-cases (nat_eq j x)) [
    | inl same ↦ rw same refl
    | inr other ↦ rw other (elim (Bool-cases (nat_eq i x)) [
      | inl same ↦ rw same refl
      | inr different ↦ rw different refl
    ])
  ];
}

Reach-Stuck :
    (i j : ℕ) (m : Method) (s : State) {t : State} → Stuck i j m s → Reach any s t → Stuck i j m t
unfolding move
Reach-Stuck i j m s stuck start = stuck
Reach-Stuck i j m s {t = t} stuck (later {t = u} k c before allowed moved) =
    let now = Reach-Stuck i j m s stuck before in
    move_from-Stuck k c (u.pc k) i j m u t refl now (now.waiting k) moved

-- Two threads that share a client, of which one calls `get_empty_tree_id` and the other another
-- method, can come to a state after which, whatever any thread does, each of the two
-- waits for its second mutex.
pub deadlock :
    (i j : ℕ) (m : Method) (t : State)
    → i ≢ j
    → is_other m ≡ true
    → Reach any (crossed i j m) t
    → Reach any init (crossed i j m)
      × (t.pc i ≡ locking_second get_empty_tree_id)
      × (t.pc j ≡ locking_second m)
deadlock i j m t apart other after =
    let off : nat_eq i j ≡ false = ground arith in
    let off' : nat_eq j i ≡ false = ground arith in
    let stuck = Reach-Stuck i j m (crossed i j m) (crossed-Stuck i j m off off') after in
    (Reach-crossed i j m off (client_first-is_other m other), stuck.empty_tree, stuck.other)
