-- ===== src/Tests/Mounts.antt =====
-- Copying a tree of the content store into a mount, at a concrete store.
use cultivate.Common.{◌≡◌, refl, true, [], ◌∷◌, Bytes, bytes_key, bytes_eq, ok, arith}
use cultivate.HashMap
use cultivate.Object.{file, tree_id}
use cultivate.Store.{Store, get_tree, get_file}
use cultivate.Mount.{Mount}
use cultivate.Mount.Insert.{insert_tree}
use cultivate.Mount.Depth.{HasDepth, ListsTree, insert_tree_ends}
use cultivate.Tests.Samples.{clock}
use cultivate.Tests.Daemons.{sample_mount}

abbrev top : Bytes
top = b't' ∷ []

abbrev below : Bytes
below = b'b' ∷ []

abbrev leaf : Bytes
leaf = b'l' ∷ []

-- A tree with a subtree that holds a file.
abbrev nested_store : Store
nested_store = record {
  commits = HashMap.empty;
  files = HashMap.insert leaf (record { content = leaf }) HashMap.empty;
  symlinks = HashMap.empty;
  empty_tree_id = [];
  trees =
      HashMap.insert top (record { entries = (below, tree_id below) ∷ [] })
        (HashMap.insert below (record { entries = (leaf, file leaf true) ∷ [] }) HashMap.empty);
}

insert_tree_ends_example :
    (t : Mount) × (insert_tree clock nested_store 2 top 1 sample_mount ≡ (ok tt, t))
    × (insert_tree clock nested_store 9 top 1 sample_mount ≡ (ok tt, t))
    × ListsTree clock nested_store (record { entries = (below, tree_id below) ∷ [] }) 1 t
unfolding HasDepth bytes_eq get_tree get_file
insert_tree_ends_example =
    insert_tree_ends clock nested_store 2 9 top (record { entries = (below, tree_id below) ∷ [] }) 1
      sample_mount (omega arith) (_, refl, ((_, refl, ((_, refl), tt)), tt)) refl
