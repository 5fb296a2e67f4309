-- ===== src/Client/Locks/Held.antt =====
-- cli/src/blocking_client.rs: who holds the mutexes, where no thread calls `get_empty_tree_id`.
use cultivate.Common.{
  ℕ, ◌≡◌, refl, sym, ap, ◌∙◌, Bool, true, false, Option, none, some, nat_eq, nat_eq_iff, Bool-cases,
  inl, inr,
}
use mathlib.Core.Path.{subst}
use cultivate.Client.Locks.{
  client, rt, Method, get_tree_state, initialize, set_checkout_state, get_checkout_state, snapshot,
  write_commit, read_commit, write_file, read_file, write_tree, read_tree, write_symlink,
  read_symlink, get_empty_tree_id, is_other, client_first, first_mutex, second_mutex, Pc, idle,
  locking_first, locking_second, running, returning, State, init, go, hold, lock, move_from, move,
  Reach, start, later,
}

-- Where a thread is that has locked the client, and where one is that has locked both.
unfoldable pub has_client : Pc → Bool
has_client idle = false
has_client (locking_first m) = false
has_client (locking_second m) = true
has_client (running m) = true
has_client (returning m) = true

unfoldable pub has_rt : Pc → Bool
has_rt (running m) = true
has_rt _ = false

unfoldable pub in_order : Pc → Bool
in_order idle = true
in_order (locking_first m) = client_first m
in_order (locking_second m) = client_first m
in_order (running m) = client_first m
in_order (returning m) = client_first m

abbrev pub held_by : Option ℕ → ℕ → Bool
held_by none j = false
held_by (some i) j = nat_eq i j

-- The threads that a test picks are the one, if any, that holds the mutex.
unfoldable pub Matches : (Pc → Bool) → Option ℕ → (ℕ → Pc) → Type 0
Matches test o pc = (j : ℕ) → test (pc j) ≡ held_by o j

module _ (test : Pc → Bool) (i : ℕ) (p : Pc) (s : State) where
  Matches-stay :
      (o : Option ℕ) → test p ≡ test (s.pc i) → Matches test o s.pc → Matches test o (go i p s).pc
  unfolding Matches
  Matches-stay o same matches j = elim (Bool-cases (nat_eq i j)) [
    | inl here ↦ rw here (same ∙ ap (λ k. test (s.pc k)) ((nat_eq_iff i j).0 here) ∙ matches j)
    | inr other ↦ rw other (matches j)
  ]

  Matches-take : test p ≡ true → Matches test none s.pc → Matches test (some i) (go i p s).pc
  unfolding Matches
  Matches-take in_test matches j = elim (Bool-cases (nat_eq i j)) [
    | inl here ↦ rw here in_test
    | inr other ↦ rw other (matches j)
  ]

  others_out :
      (o : Option ℕ) (j : ℕ) → held_by o i ≡ true → nat_eq i j ≡ false → held_by o j ≡ false
  others_out none j held other = refl
  others_out (some k) j held other = ap (λ x. nat_eq x j) ((nat_eq_iff k i).0 held) ∙ other

  Matches-release :
      (o : Option ℕ)
      → test p ≡ false
      → test (s.pc i) ≡ true
      → Matches test o s.pc
      → Matches test none (go i p s).pc
  unfolding Matches
  Matches-release o out was matches j = elim (Bool-cases (nat_eq i j)) [
    | inl here ↦ rw here out
    | inr other ↦ rw other (matches j ∙ others_out o j (sym (matches i) ∙ was) other)
  ]

pub record Inv (s : State) : Type 0 where
  pub client_holder : Matches has_client (s.held client) s.pc
  pub rt_holder : Matches has_rt (s.held rt) s.pc
  pub ordered : (i : ℕ) → in_order (s.pc i) ≡ true

in_order-go :
    (i : ℕ) (p : Pc) (s : State)
    → Inv s
    → in_order p ≡ true
    → (j : ℕ) → in_order ((go i p s).pc j) ≡ true
in_order-go i p s inv h j = elim (Bool-cases (nat_eq i j)) [
  | inl same ↦ rw same h
  | inr other ↦ rw other (inv.ordered j)
]

Inv-some : (s t : State) → Inv s → some s ≡ some t → Inv t
Inv-some s t inv e = let same : s ≡ t = cc in subst Inv same inv

module _ (i : ℕ) (c : Method) (s t : State) (inv : Inv s) where
  lock_client :
      (o : Option ℕ)
      → client_first c ≡ true
      → s.held client ≡ o
      → s.pc i ≡ locking_first c
      → lock i client (locking_second c) o s ≡ some t
      → Inv t
  unfolding has_client has_rt in_order Matches
  lock_client none first free at e =
      Inv-some _ t
        (record {
          client_holder =
              Matches-take has_client i (locking_second c) s refl
                (λ j. inv.client_holder j ∙ ap (λ o. held_by o j) free);
          rt_holder =
              Matches-stay has_rt i (locking_second c) s (s.held rt) (sym (ap has_rt at))
                inv.rt_holder;
          ordered = in_order-go i (locking_second c) s inv first;
        })
        e
  lock_client (some k) first free at e = cc

  lock_rt :
      (o : Option ℕ)
      → client_first c ≡ true
      → s.held rt ≡ o
      → s.pc i ≡ locking_second c
      → lock i rt (running c) o s ≡ some t
      → Inv t
  unfolding has_client has_rt in_order Matches
  lock_rt none first free at e =
      Inv-some _ t
        (record {
          client_holder =
              Matches-stay has_client i (running c) s (s.held client) (sym (ap has_client at))
                inv.client_holder;
          rt_holder =
              Matches-take has_rt i (running c) s refl
                (λ j. inv.rt_holder j ∙ ap (λ o. held_by o j) free);
          ordered = in_order-go i (running c) s inv first;
        })
        e
  lock_rt (some k) first free at e = cc

  unlock_rt : client_first c ≡ true → s.pc i ≡ running c → Inv (go i (returning c) (hold rt none s))
  unfolding has_client has_rt in_order
  unlock_rt first at = record {
    client_holder =
        Matches-stay has_client i (returning c) s (s.held client) (sym (ap has_client at))
          inv.client_holder;
    rt_holder =
        Matches-release has_rt i (returning c) s (s.held rt) refl (ap has_rt at) inv.rt_holder;
    ordered = in_order-go i (returning c) s inv first;
  }

  unlock_client :
      client_first c ≡ true → s.pc i ≡ returning c → Inv (go i idle (hold client none s))
  unfolding has_client has_rt in_order
  unlock_client first at = record {
    client_holder =
        Matches-release has_client i idle s (s.held client) refl (ap has_client at)
          inv.client_holder;
    rt_holder = Matches-stay has_rt i idle s (s.held rt) (sym (ap has_rt at)) inv.rt_holder;
    ordered = in_order-go i idle s inv refl;
  }

call-Inv :
    (i : ℕ) (m : Method) (s : State)
    → Inv s
    → client_first m ≡ true
    → s.pc i ≡ idle
    → Inv (go i (locking_first m) s)
unfolding has_client has_rt in_order
call-Inv i m s inv first at = record {
  client_holder =
      Matches-stay has_client i (locking_first m) s (s.held client) (sym (ap has_client at))
        inv.client_holder;
  rt_holder =
      Matches-stay has_rt i (locking_first m) s (s.held rt) (sym (ap has_rt at)) inv.rt_holder;
  ordered = in_order-go i (locking_first m) s inv first;
}

move_from-Inv :
    (i : ℕ) (m : Method) (p : Pc) (s t : State)
    → s.pc i ≡ p
    → Inv s
    → in_order p ≡ true
    → client_first m ≡ true
    → move_from i m p s ≡ some t
    → Inv t
unfolding in_order
move_from-Inv i m idle s t at inv order first e = Inv-some _ t (call-Inv i m s inv first at) e
move_from-Inv i m (locking_first c) s t at inv order first e =
    lock_client i c s t inv (s.held client) order refl at (
      subst (λ b. lock i (first_mutex b) (locking_second c) (s.held (first_mutex b)) s ≡ some t)
        order e)
move_from-Inv i m (locking_second c) s t at inv order first e =
    lock_rt i c s t inv (s.held rt) order refl at (
      subst (λ b. lock i (second_mutex b) (running c) (s.held (second_mutex b)) s ≡ some t) order e)
move_from-Inv i m (running c) s t at inv order first e =
    Inv-some _ t (unlock_rt i c s t inv order at)
      (subst (λ b. some (go i (returning c) (hold (second_mutex b) none s)) ≡ some t) order e)
move_from-Inv i m (returning c) s t at inv order first e =
    Inv-some _ t (unlock_client i c s t inv order at)
      (subst (λ b. some (go i idle (hold (first_mutex b) none s)) ≡ some t) order e)

pub client_first-is_other : (m : Method) → is_other m ≡ true → client_first m ≡ true
unfolding client_first
client_first-is_other get_tree_state other = refl
client_first-is_other initialize other = refl
client_first-is_other set_checkout_state other = refl
client_first-is_other get_checkout_state other = refl
client_first-is_other snapshot other = refl
client_first-is_other write_commit other = refl
client_first-is_other read_commit other = refl
client_first-is_other write_file other = refl
client_first-is_other read_file other = refl
client_first-is_other write_tree other = refl
client_first-is_other read_tree other = refl
client_first-is_other write_symlink other = refl
client_first-is_other read_symlink other = refl
client_first-is_other get_empty_tree_id other = cc

pub Reach-Inv : {s : State} → Reach is_other init s → Inv s
unfolding move has_client has_rt in_order Matches
Reach-Inv start = record { client_holder = λ j. refl; rt_holder = λ j. refl; ordered = λ j. refl }
Reach-Inv {s} (later {t} i m before allowed moved) =
    let inv = Reach-Inv before in
    move_from-Inv i m (t.pc i) t s refl inv (inv.ordered i) (client_first-is_other m allowed) moved
