-- ===== src/Object.antt =====
-- store.rs, first half: the objects of the content store, their hashes, and the wire messages that
-- jj_interface.proto declares for them.
pub mod Proto
pub mod Encoding
use cultivate.Common.{◌≡◌, Bool, Option, none, some, List, [], ◌∷◌, Bytes, length, ◌>>=?◌}
use cultivate.ContentHash.{
  Blake3, Update, blake3, update_bool, update_u8, update_slice, update_pair, update_string,
  update_vec,
}

-- `[u8; 32]`
abbrev pub ObjectId : Type 0
ObjectId = Bytes

pub data TreeEntry : Type 0 where
  file : ObjectId → Bool → TreeEntry
  tree_id : ObjectId → TreeEntry
  symlink_id : ObjectId → TreeEntry
  conflict_id : ObjectId → TreeEntry

pub record Tree : Type 0 where
  pub entries : List (Bytes × TreeEntry)

pub record Symlink : Type 0 where
  pub target : Bytes

pub record File : Type 0 where
  pub content : Bytes

-- `Tree::default()`, `Symlink::default()`, `File::default()`
abbrev pub empty_tree : Tree
empty_tree = record { entries = [] }

abbrev pub empty_symlink : Symlink
empty_symlink = record { target = [] }

abbrev pub empty_file : File
empty_file = record { content = [] }

module _ (b : Blake3) where
  -- `ConflictId` meets the arm `_ => todo!()`
  unfoldable pub update_tree_entry : Update b TreeEntry
  unfolding update_slice update_u8 update_bool
  update_tree_entry (file id executable) state =
      update_slice b (update_u8 b) id (b.update state (b'0' ∷ [])) >>=? update_bool b executable
  update_tree_entry (tree_id id) state =
      update_slice b (update_u8 b) id (b.update state (b'1' ∷ []))
  update_tree_entry (symlink_id id) state =
      update_slice b (update_u8 b) id (b.update state (b'2' ∷ []))
  update_tree_entry (conflict_id id) state = none

  unfoldable pub update_tree : Update b Tree
  unfolding update_vec update_pair update_string update_tree_entry
  update_tree t state =
      update_vec b (update_pair b (update_string b) update_tree_entry) t.entries state

  unfoldable pub update_symlink : Update b Symlink
  unfolding update_string
  update_symlink s state = update_string b s.target state

  unfoldable pub update_file : Update b File
  unfolding update_vec update_u8
  update_file f state = update_vec b (update_u8 b) f.content state

  -- `get_hash` of the three types
  unfoldable pub tree_get_hash : Tree → Option ObjectId
  tree_get_hash t = blake3 b update_tree t

  unfoldable pub symlink_get_hash : Symlink → Option ObjectId
  symlink_get_hash s = blake3 b update_symlink s

  unfoldable pub file_get_hash : File → Option ObjectId
  file_get_hash f = blake3 b update_file f
