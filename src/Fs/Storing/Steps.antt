-- ===== src/Fs/Storing/Steps.antt =====
-- fs.rs: every answered request only adds to the content store.
use cultivate.Common.{ℕ, ◌≡◌, ◌∙◌, sym}
use mathlib.Core.Path.{subst}
use cultivate.ContentHash.{Blake3}
use cultivate.Inode.Clock.{SystemTime}
use cultivate.Fs.{Fs, F}
use cultivate.Fs.Listing.{ReplyDirectory}
use cultivate.Fs.Valid.Others.{
  lookup_same, getattr_same, setattr_same, readdir_same, readlink_same, read_same,
}
use cultivate.Fs.Valid.Serving.{
  Step, looked_up, got_attributes, set_attributes, listed, opened, opened_directory, released,
  read_file, written, read_link, made_symlink, made_directory, made_node, renamed,
}
use cultivate.Fs.Storing.{Adds, Adds-refl, Adding}
use cultivate.Fs.Storing.Handlers.{
  open_file-Adding, opendir-Adding, release-Adding, write-Adding, symlink-Adding, mkdir-Adding,
  mknod-Adding, rename-Adding,
}

same-Adds : {s t u : Fs} → u ≡ s → u ≡ t → Adds s.store t.store
same-Adds {s = s} {t = t} same e =
    subst (λ (x : Fs). Adds s.store x.store) (sym same ∙ e) (Adds-refl s.store)

left-Adds : {A : Type 0} (m : F A) (s t : Fs) → Adding m → (m s).1 ≡ t → Adds s.store t.store
left-Adds m s t g e = subst (λ (x : Fs). Adds s.store x.store) e (g.at s)

module _ (b : Blake3) (now : ℕ → SystemTime) (d : ReplyDirectory) where
  pub Step-Adds : {s t : Fs} → Step b now d s t → Adds s.store t.store
  Step-Adds (looked_up i name (r, e)) = same-Adds (lookup_same i name _) e
  Step-Adds (got_attributes i (r, e)) = same-Adds (getattr_same i _) e
  Step-Adds (set_attributes i (r, e)) = same-Adds (setattr_same i _) e
  Step-Adds (listed i offset buffer (r, e)) = same-Adds (readdir_same d i offset buffer _) e
  Step-Adds (opened req i flags (r, e)) = left-Adds _ _ _ (open_file-Adding req i flags) e
  Step-Adds (opened_directory req i flags (r, e)) = left-Adds _ _ _ (opendir-Adding req i flags) e
  Step-Adds (released i (r, e)) = left-Adds _ _ _ (release-Adding i) e
  Step-Adds (read_file i fh offset size (r, e)) = same-Adds (read_same i fh offset size _) e
  Step-Adds (written i fh offset bytes file (r, e)) =
      left-Adds _ _ _ (write-Adding now b i fh offset bytes) e
  Step-Adds (read_link i (r, e)) = same-Adds (readlink_same i _) e
  Step-Adds (made_symlink req i name target room (r, e)) =
      left-Adds _ _ _ (symlink-Adding now b req i name target) e
  Step-Adds (made_directory req i name mode room (r, e)) =
      left-Adds _ _ _ (mkdir-Adding now req i name mode) e
  Step-Adds (made_node req i name mode room (r, e)) =
      left-Adds _ _ _ (mknod-Adding now req i name mode) e
  Step-Adds (renamed req i name j new_name flags (r, e)) =
      left-Adds _ _ _ (rename-Adding now req i name j new_name flags) e
