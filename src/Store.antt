-- ===== src/Store.antt =====
-- store.rs, second half: the content store. The maps behind its locks are the fields of a record, and
-- an operation takes the store and returns the new one; every clone of a `Store` shares the maps.
pub mod Laws
use cultivate.Common.{Option, some, Bytes, bytes_key, ◌>>=?◌}
use cultivate.HashMap
use cultivate.HashMap.{HashMap}
use cultivate.Proto
use cultivate.ContentHash.{Blake3}
use cultivate.Object.{
  ObjectId, Tree, Symlink, File, empty_tree, tree_get_hash, symlink_get_hash, file_get_hash,
}

pub record Store : Type 0 where
  pub commits : HashMap ObjectId Proto.Commit
  pub files : HashMap ObjectId File
  pub symlinks : HashMap ObjectId Symlink
  pub empty_tree_id : ObjectId
  pub trees : HashMap ObjectId Tree

module _ (b : Blake3) where
  unfoldable pub new : Option Store
  new = tree_get_hash b empty_tree >>=? λ empty_tree_id. some (record {
    commits = HashMap.empty;
    files = HashMap.empty;
    symlinks = HashMap.empty;
    empty_tree_id = empty_tree_id;
    trees = HashMap.insert empty_tree_id empty_tree HashMap.empty;
  })

  -- A write returns the hash under which the object is stored.
  unfoldable pub write_tree : Tree → Store → Option (ObjectId × Store)
  write_tree tree s = tree_get_hash b tree >>=? λ hash.
      some (hash, record s { trees = HashMap.insert hash tree s.trees })

  unfoldable pub write_file : File → Store → Option (ObjectId × Store)
  write_file file s = file_get_hash b file >>=? λ hash.
      some (hash, record s { files = HashMap.insert hash file s.files })

  unfoldable pub write_symlink : Symlink → Store → Option (ObjectId × Store)
  write_symlink symlink s = symlink_get_hash b symlink >>=? λ hash.
      some (hash, record s { symlinks = HashMap.insert hash symlink s.symlinks })

unfoldable pub get_empty_tree_id : Store → ObjectId
get_empty_tree_id s = s.empty_tree_id

unfoldable pub get_tree : ObjectId → Store → Option Tree
get_tree id s = s.trees id

unfoldable pub get_file : ObjectId → Store → Option File
get_file id s = s.files id

unfoldable pub get_symlink : ObjectId → Store → Option Symlink
get_symlink id s = s.symlinks id
