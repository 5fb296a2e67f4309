-- ===== src/WorkingCopy/Fresh.antt =====
-- cli/src/working_copy.rs: a working copy of the daemon.
use cultivate.Common.{
  if◌then◌else◌, bytes_eq, ◌≡◌, refl, ap, true, some, Bytes, is_utf8, length, ok, ◌>>=◌, [], ◌∷◌,
}
use cultivate.Proto
use cultivate.ContentHash.{Blake3}
use cultivate.Mount.{Mount}
use cultivate.Daemon.{Daemon, Platform, Status}
use cultivate.Service.{Prost}
use cultivate.Service.Checkout.{
  IsUsable, with_checkout, get_checkout_state_lem, get_tree_state_lem,
  set_checkout_state-CheckedOut,
}
use cultivate.Jj.{Merges, merge}
use cultivate.Client
use cultivate.Client.Served.{daemon}
use cultivate.WorkingCopy.{
  CheckoutState, WorkingCopy, Attached, empty_cells, init, ask_checkout_state, ask_tree_state,
  get_checkout_state, get_tree_state, operation_id, tree_id, workspace_id, current_tree_id,
}
use cultivate.WorkingCopy.Locked.{start_mutation, finish}

-- The daemon keeps the checkout state `cs` for the working copy at `path`, whose path and workspace id
-- are UTF-8.
pub record Keeps (path : Bytes) (m : Mount) (cs : CheckoutState) (s : Daemon) : Type 0 where
  pub usable : IsUsable path m s
  pub op_id : m.op_id ≡ some cs.operation_id
  pub workspace_id : m.workspace_id ≡ some cs.workspace_id
  pub path_text : is_utf8 path ≡ true
  pub workspace_text : is_utf8 cs.workspace_id ≡ true

module _ (b : Blake3) (prost : Prost) (platform : Platform) (lost : Status) (ms : Merges) where
  pub ask_checkout_state_lem :
      (p : Attached ms Daemon) (m : Mount) (cs : CheckoutState)
      → Keeps p.copy.working_copy_path m cs p.daemon
      → ask_checkout_state (daemon b prost platform) lost ms {E = Status} p ≡ (ok cs, p)
  unfolding ◌>>=◌ Client.get_checkout_state
  ask_checkout_state_lem p m cs k =
      rw
        (
          k.path_text,
          get_checkout_state_lem p.copy.working_copy_path m
              (record { op_id = cs.operation_id; workspace_id = cs.workspace_id }) p.daemon k.usable
              k.op_id k.workspace_id,
          k.workspace_text,
        )
        refl

  pub ask_tree_state_lem :
      (p : Attached ms Daemon) (m : Mount) (cs : CheckoutState) (built : ms.Merge)
      → Keeps p.copy.working_copy_path m cs p.daemon
      → ms.build (m.tree_id ∷ []) ≡ some built
      → ask_tree_state (daemon b prost platform) lost ms {E = Status} p
        ≡ (ok (record { tree_id = merge built }), p)
  unfolding ◌>>=◌ Client.get_tree_state
  ask_tree_state_lem p m cs built k one =
      rw (k.path_text, get_tree_state_lem p.copy.working_copy_path m p.daemon k.usable, one) refl

  -- A copy whose cells were both filled from the daemon.
  abbrev pub filled : Bytes → CheckoutState → ms.Merge → WorkingCopy ms
  filled path cs built = record {
    working_copy_path = path;
    checkout_state = some cs;
    tree_state = some (record { tree_id = merge built });
  }

  -- The answers of a copy at `path`: a copy with empty cells gives these ids and fills its cell.
  operation_id_lem :
      (path : Bytes) (m : Mount) (cs : CheckoutState) (s : Daemon)
      → Keeps path m cs s
      → operation_id
          (daemon b prost platform)
          lost
          ms
          {E = Status}
          (record { copy = empty_cells path; daemon = s })
        ≡ (
          ok cs.operation_id,
          record { copy = record (empty_cells path) { checkout_state = some cs }; daemon = s },
        )
  unfolding operation_id get_checkout_state ◌>>=◌
  operation_id_lem path m cs s k =
      rw (ask_checkout_state_lem (record { copy = empty_cells path; daemon = s }) m cs k) refl

  -- Where the daemon keeps a checkout state of the working copy, and a merge of one id can be made,
  -- a mutation starts from that state and the mount's tree, whatever the cells of the copy that it
  -- is started from hold, and changes nothing in the daemon.
  pub start_mutation-current :
      (copy : WorkingCopy ms) (m : Mount) (cs : CheckoutState) (built : ms.Merge) (s : Daemon)
      → Keeps copy.working_copy_path m cs s
      → ms.build (m.tree_id ∷ []) ≡ some built
      → start_mutation (daemon b prost platform) lost ms {E = Status} copy s ≡ (
        ok (record {
          wc = filled copy.working_copy_path cs built;
          old_operation_id = cs.operation_id;
          old_tree_id = merge built;
        }),
        s,
      )
  unfolding start_mutation operation_id tree_id current_tree_id get_checkout_state get_tree_state
      ◌>>=◌
  start_mutation-current copy m cs built s k one =
      let path = copy.working_copy_path in
      let asked = record (empty_cells path) { checkout_state = some cs } in
      rw
        (
          ask_checkout_state_lem (record { copy = empty_cells path; daemon = s }) m cs k,
          ask_tree_state_lem (record { copy = asked; daemon = s }) m cs built k one,
        )
        refl

  -- Making a working copy at a path that is UTF-8, whose mount can be used, for an operation id of
  -- 64 bytes and a workspace id that is UTF-8, gives a copy with empty cells; asked for its operation
  -- id it gives that id and fills its cell, and then gives that workspace id. Nothing but the mount's two
  -- ids has changed among the mounts and in the store.
  pub operation_id-init :
      (path : Bytes) (m : Mount) (cs : CheckoutState) (s : Daemon)
      → IsUsable path m s
      → is_utf8 path ≡ true
      → length cs.operation_id ≡ 64
      → is_utf8 cs.workspace_id ≡ true
      → (t : Daemon) × (init
            (daemon b prost platform)
            lost
            ms
            {E = Status}
            true
            path
            cs.operation_id
            cs.workspace_id
            s
          ≡ (ok (empty_cells path), t))
        × (operation_id
              (daemon b prost platform)
              lost
              ms
              {E = Status}
              (record { copy = empty_cells path; daemon = t })
            ≡ (
              ok cs.operation_id,
              record { copy = record (empty_cells path) { checkout_state = some cs }; daemon = t },
            ))
        × (workspace_id
              (daemon b prost platform)
              lost
              ms
              {E = Status}
              (record { copy = record (empty_cells path) { checkout_state = some cs }; daemon = t })
            ≡ (
              ok cs.workspace_id,
              record { copy = record (empty_cells path) { checkout_state = some cs }; daemon = t },
            ))
        × ((q : Bytes)
            → t.mounts q ≡ (
                if bytes_eq path q
                then some (
                    with_checkout
                      (record { op_id = cs.operation_id; workspace_id = cs.workspace_id })
                      m)
                else s.mounts q))
        × (t.store ≡ s.store)
  unfolding init workspace_id get_checkout_state ◌>>=◌ Client.set_checkout_state
  operation_id-init path m cs s u path_text size workspace_text =
      let sent : Proto.CheckoutState = record {
        op_id = cs.operation_id;
        workspace_id = cs.workspace_id;
      } in
      let (t, set, done) = set_checkout_state-CheckedOut path m sent s u size workspace_text in
      let kept : Keeps path (with_checkout sent m) cs t = record {
        usable = done.usable;
        op_id = refl;
        workspace_id = refl;
        path_text = path_text;
        workspace_text = workspace_text;
      } in
      (
        t,
        rw (path_text, set) refl,
        operation_id_lem path (with_checkout sent m) cs t kept,
        refl,
        done.mounts,
        done.store,
      )

  -- Where the daemon keeps a checkout state, finishing a mutation with any operation id gives a copy
  -- whose operation id is the one that the mutation started from, and the daemon is as it was, so
  -- that a copy with empty cells is given that old operation id too.
  pub finish-forgets :
      (copy : WorkingCopy ms) (m : Mount) (cs : CheckoutState) (built : ms.Merge) (new_id : Bytes)
      (s : Daemon)
      → Keeps copy.working_copy_path m cs s
      → ms.build (m.tree_id ∷ []) ≡ some built
      → (wc : WorkingCopy ms) × ((do
        locked ← start_mutation (daemon b prost platform) lost ms {E = Status} copy
        finish (daemon b prost platform) lost ms new_id locked)
            s
          ≡ (ok wc, s))
        × (operation_id
              (daemon b prost platform)
              lost
              ms
              {E = Status}
              (record { copy = wc; daemon = s })
            ≡ (ok cs.operation_id, record { copy = wc; daemon = s }))
        × ((operation_id
              (daemon b prost platform)
              lost
              ms
              {E = Status}
              (record { copy = empty_cells copy.working_copy_path; daemon = s })).0
            ≡ ok cs.operation_id)
  unfolding finish operation_id get_checkout_state ◌>>=◌
  finish-forgets copy m cs built new_id s k one = (
    filled copy.working_copy_path cs built,
    rw (start_mutation-current copy m cs built s k one) refl,
    refl,
    ap (λ x. x.0) (operation_id_lem copy.working_copy_path m cs s k),
  )
