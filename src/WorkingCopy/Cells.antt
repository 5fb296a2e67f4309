-- ===== src/WorkingCopy/Cells.antt =====
-- cli/src/working_copy.rs: the cells of a working copy.
use cultivate.Common.{
  ◌≡◌, refl, ap, sym, Option, none, some, Outcome, ok, err, panic, Run, unwrap, continue, ◌>>=◌,
  ◌∙◌,
}
use cultivate.Daemon.{Status}
use cultivate.Jj.{Merges}
use cultivate.Client.{Server}
use cultivate.WorkingCopy.{
  CheckoutState, TreeState, Attached, get_or_init, stored, ask_tree_state, ask_checkout_state,
  get_tree_state, get_checkout_state,
}

module _ {P E A : Type 0} (cell : P → Option A) (fill : A → P → P) where
  stored-cell :
      (r : Outcome E A) (p q : P) (v : A)
      → ((a : A) (x : P) → cell (fill a x) ≡ some a)
      → stored fill (r, p) ≡ (ok v, q)
      → cell q ≡ some v
  stored-cell (ok a) p q v filled e = cc (filled a p, e)
  stored-cell (err x) p q v filled e = cc
  stored-cell panic p q v filled e = cc

  -- A cell that was asked is full.
  get_or_init-cell :
      (o : Option A) (make : Run P E A) (p q : P) (v : A)
      → cell p ≡ o
      → ((a : A) (x : P) → cell (fill a x) ≡ some a)
      → get_or_init o fill make p ≡ (ok v, q)
      → cell q ≡ some v
  get_or_init-cell (some a) make p q v held filled e = cc
  get_or_init-cell none make p q v held filled e =
      let (r, p') = make p in stored-cell r p' q v filled e

module _ (ms : Merges) (S : Type 0) where
  KeepsCopy : {A : Type 0} → Run (Attached ms S) Status A → Type 0
  KeepsCopy call = (p : Attached ms S) → (call p).1.copy ≡ p.copy

  continue-KeepsCopy :
      {A B : Type 0} (r : Outcome Status A) (f : A → Run (Attached ms S) Status B)
      (p q : Attached ms S)
      → q.copy ≡ p.copy
      → ((a : A) → KeepsCopy (f a))
      → (continue r f q).1.copy ≡ p.copy
  unfolding KeepsCopy
  continue-KeepsCopy (ok a) f p q same second = second a q ∙ same
  continue-KeepsCopy (err e) f p q same second = same
  continue-KeepsCopy panic f p q same second = same

  >>=-KeepsCopy :
      {A B : Type 0} (m : Run (Attached ms S) Status A) (f : A → Run (Attached ms S) Status B)
      → KeepsCopy m
      → ((a : A) → KeepsCopy (f a))
      → KeepsCopy (m >>= f)
  unfolding KeepsCopy ◌>>=◌
  >>=-KeepsCopy m f first second p = let (r, q) = m p in continue-KeepsCopy r f p q (first p) second

  unwrap-KeepsCopy : {A : Type 0} (o : Option A) → KeepsCopy (unwrap o)
  unfolding KeepsCopy
  unwrap-KeepsCopy none p = refl
  unwrap-KeepsCopy (some a) p = refl

module _ (server : Server) (lost : Status) (ms : Merges) where
  ask_tree_state-KeepsCopy : KeepsCopy ms server.State (ask_tree_state server lost ms)
  unfolding KeepsCopy
  ask_tree_state-KeepsCopy =
      >>=-KeepsCopy ms server.State _ _
        (>>=-KeepsCopy ms server.State _ _ (λ p. refl) (λ path. unwrap-KeepsCopy ms server.State _))
        (λ path.
          >>=-KeepsCopy ms server.State _ _ (λ p. refl)
            (λ reply.
              >>=-KeepsCopy ms server.State _ _ (unwrap-KeepsCopy ms server.State _)
                (λ built p. refl)))

  stored_tree :
      (r : Outcome Status (TreeState ms)) (q : Attached ms server.State)
      → (stored
          (λ v p. record p { copy = record p.copy { tree_state = some v } })
          (r, q)).1.copy.checkout_state
        ≡ q.copy.checkout_state
  stored_tree (ok v) q = refl
  stored_tree (err e) q = refl
  stored_tree panic q = refl

  get_or_init_tree :
      (o : Option (TreeState ms)) (p : Attached ms server.State)
      → (get_or_init o
          (λ v p. record p { copy = record p.copy { tree_state = some v } })
          (ask_tree_state server lost ms {E = Status})
          p).1.copy.checkout_state
        ≡ p.copy.checkout_state
  unfolding KeepsCopy
  get_or_init_tree (some v) p = refl
  get_or_init_tree none p =
      let (r, q) = ask_tree_state server lost ms {E = Status} p in
      stored_tree r q ∙ ap (λ c. c.checkout_state) (ask_tree_state-KeepsCopy p)

  -- Once the checkout state was asked for and then the tree, whatever becomes of the daemon, both
  -- questions have the same answers again and change nothing.
  pub cells_stay :
      (p q r : Attached ms server.State) (c : CheckoutState) (v : TreeState ms) (s : server.State)
      → get_checkout_state server lost ms {E = Status} p ≡ (ok c, q)
      → get_tree_state server lost ms {E = Status} q ≡ (ok v, r)
      → (get_checkout_state server lost ms {E = Status} (record r { daemon = s })
          ≡ (ok c, record r { daemon = s }))
        × (get_tree_state server lost ms {E = Status} (record r { daemon = s })
            ≡ (ok v, record r { daemon = s }))
  unfolding get_checkout_state get_tree_state
  cells_stay p q r c v s asked then_asked =
      let checkout =
        get_or_init-cell (λ p. p.copy.checkout_state)
          (λ v p. record p { copy = record p.copy { checkout_state = some v } })
          p.copy.checkout_state (ask_checkout_state server lost ms) p q c refl (λ a x. refl)
          asked in
      let tree =
        get_or_init-cell (λ p. p.copy.tree_state)
          (λ v p. record p { copy = record p.copy { tree_state = some v } }) q.copy.tree_state
          (ask_tree_state server lost ms) q r v refl (λ a x. refl) then_asked in
      let kept : r.copy.checkout_state ≡ some c =
        ap (λ x. x.1.copy.checkout_state) (sym then_asked)
        ∙ get_or_init_tree q.copy.tree_state q
        ∙ checkout in
      (rw kept refl, rw tree refl)
