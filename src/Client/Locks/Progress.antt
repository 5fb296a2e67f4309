-- ===== src/Client/Locks/Progress.antt =====
-- cli/src/blocking_client.rs: the methods other than `get_empty_tree_id` never stop one another.
use cultivate.Common.{ℕ, ◌≡◌, ◌≢◌, refl, sym, ap, ◌∙◌, Bool, true, Option, none, some, nat_eq_iff}
use cultivate.Client.Locks.{
  client, rt, Method, is_other, client_first, Pc, idle, locking_first, locking_second, running,
  returning, State, init, go, hold, move_from, move, Reach,
}
use cultivate.Client.Locks.Held.{has_client, has_rt, in_order, held_by, Matches, Inv, Reach-Inv}

-- A thread in a call that can take its next step.
abbrev pub CanMove : State → ℕ → Type 0
CanMove s j = (t : State) × (s.pc j ≢ idle) × ((m : Method) → move j m s ≡ some t)

module _ (s : State) (inv : Inv s) where
  can_move :
      (j : ℕ) (p : Pc) (t : State)
      → s.pc j ≡ p
      → p ≢ idle
      → ((m : Method) → move_from j m p s ≡ some t)
      → CanMove s j
  unfolding move
  can_move j p t at busy moves =
      (t, λ e. busy (sym at ∙ e), λ m. ap (λ p. move_from j m p s) at ∙ moves m)

  holder :
      (test : Pc → Bool) (o : Option ℕ) (k : ℕ)
      → Matches test o s.pc
      → o ≡ some k
      → test (s.pc k) ≡ true
  unfolding Matches
  holder test o k matches held = matches k ∙ ap (λ o. held_by o k) held ∙ (nat_eq_iff k k).1 refl

  running_moves : (j : ℕ) (p : Pc) → s.pc j ≡ p → has_rt p ≡ true → CanMove s j
  unfolding has_rt
  running_moves j (running c) at in_both = can_move j (running c) _ at (λ e. cc) (λ m. refl)
  running_moves j idle at in_both = cc
  running_moves j (locking_first c) at in_both = cc
  running_moves j (locking_second c) at in_both = cc
  running_moves j (returning c) at in_both = cc

  wait_for_rt :
      (j : ℕ) (c : Method) (o : Option ℕ)
      → s.held rt ≡ o
      → client_first c ≡ true
      → s.pc j ≡ locking_second c
      → (k : ℕ) × CanMove s k
  wait_for_rt j c none free order at = (
    j,
    can_move j (locking_second c) (go j (running c) (hold rt (some j) s)) at (λ e. cc)
        (λ m. rw (order, free) refl),
  )
  wait_for_rt j c (some k) held order at =
      (k, running_moves k (s.pc k) refl (holder has_rt (s.held rt) k inv.rt_holder held))

  inside_moves :
      (j : ℕ) (p : Pc)
      → s.pc j ≡ p
      → in_order p ≡ true
      → has_client p ≡ true
      → (k : ℕ) × CanMove s k
  unfolding has_client in_order has_rt
  inside_moves j idle at order inside = cc
  inside_moves j (locking_first c) at order inside = cc
  inside_moves j (locking_second c) at order inside = wait_for_rt j c (s.held rt) refl order at
  inside_moves j (running c) at order inside = (j, running_moves j (running c) at refl)
  inside_moves j (returning c) at order inside =
      (j, can_move j (returning c) _ at (λ e. cc) (λ m. refl))

  wait_for_client :
      (j : ℕ) (c : Method) (o : Option ℕ)
      → s.held client ≡ o
      → client_first c ≡ true
      → s.pc j ≡ locking_first c
      → (k : ℕ) × CanMove s k
  wait_for_client j c none free order at = (
    j,
    can_move j (locking_first c) (go j (locking_second c) (hold client (some j) s)) at (λ e. cc)
        (λ m. rw (order, free) refl),
  )
  wait_for_client j c (some k) held order at =
      inside_moves k (s.pc k) refl (inv.ordered k)
        (holder has_client (s.held client) k inv.client_holder held)

  busy_moves : (j : ℕ) (p : Pc) → s.pc j ≡ p → in_order p ≡ true → p ≢ idle → (k : ℕ) × CanMove s k
  unfolding has_client in_order has_rt
  busy_moves j idle at order busy = absurd (busy refl)
  busy_moves j (locking_first c) at order busy = wait_for_client j c (s.held client) refl order at
  busy_moves j (locking_second c) at order busy = inside_moves j (locking_second c) at order refl
  busy_moves j (running c) at order busy = inside_moves j (running c) at order refl
  busy_moves j (returning c) at order busy = inside_moves j (returning c) at order refl

-- Threads that share a client and call only methods other than `get_empty_tree_id` never wait for one
-- another forever: in every state that they come to, where some thread is in a call, some thread
-- that is in a call can move.
pub no_deadlock :
    (s : State) (i : ℕ) → Reach is_other init s → s.pc i ≢ idle → (j : ℕ) × CanMove s j
no_deadlock s i r busy =
    let inv = Reach-Inv r in busy_moves s inv i (s.pc i) refl (inv.ordered i) busy
