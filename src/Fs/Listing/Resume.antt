-- ===== src/Fs/Listing/Resume.antt =====
-- fs.rs: `readdir` from an offset against the listing of the whole directory.
use cultivate.Common.{
  ℕ, zero, suc, ◌+◌, ◌≤◌, ◌≡◌, refl, sym, ap, ◌∙◌, true, some, List, [], ◌∷◌, ◌++◌, length, drop,
  take, ok, ◌>>=◌, pos, arith, Bool-cases, inl, inr, ◌⊎◌, length-drop,
}
use mathlib.Core.List.{append_assoc, append-nil}
use cultivate.Inode.{Inode, file_type}
use cultivate.Mount
use cultivate.Mount.{DirectoryDescriptor}
use cultivate.Fs.{Fs, on_mount, get_directory_content}
use cultivate.Fs.Listing.{DirEntry, ReplyDirectory, fill, readdir}

-- The directory as it is listed from a place on: an entry carries the place behind it.
unfoldable pub listing : ℕ → DirectoryDescriptor → List DirEntry
listing place [] = []
listing place ((name, (inode, kind)) ∷ rest) =
    record { ino = inode; offset = place + 1; kind = file_type kind; name = name }
    ∷ listing (place + 1) rest

listing-drop :
    (offset place : ℕ) (es : DirectoryDescriptor)
    → listing (place + offset) (drop offset es) ≡ drop offset (listing place es)
unfolding listing
listing-drop zero place es = ap (λ p. listing p es) (omega arith)
listing-drop (suc offset) place [] = refl
listing-drop (suc offset) place (e ∷ es) =
    ap (λ p. listing p (drop offset es)) (omega arith) ∙ listing-drop offset (place + 1) es

module _ (d : ReplyDirectory) where
  -- The last entry given to the buffer did not fit.
  abbrev pub Full : d.Buffer → Type 0
  Full r' = (r : d.Buffer) × (e : DirEntry) × (d.add r e ≡ (r', true))

  fill-listing :
      (offset index : ℕ) (es : DirectoryDescriptor) (r : d.Buffer)
      → (n : ℕ) × (d.added (fill d offset index es r)
          ≡ d.added r ++ take n (listing (offset + index) es))
        × ((length es ≤ n) ⊎ Full (fill d offset index es r))
  unfolding fill listing
  fill-listing offset index [] r = (0, sym (append-nil (d.added r)), inl (omega arith))
  fill-listing offset index ((name, (inode, kind)) ∷ rest) r =
      let e : DirEntry = record {
        ino = inode;
        offset = offset + index + 1;
        kind = file_type kind;
        name = name;
      } in
      let r' = (d.add r e).0 in
      elim (Bool-cases (d.add r e).1) [
        | inl full ↦ (
          0,
          rw full (d.add-full r e full ∙ sym (append-nil (d.added r))),
          rw full (inr (r, e, λ i. ((d.add r e).0, full i))),
        )
        | inr fits ↦
            let (n, more, ends) = fill-listing offset (index + 1) rest r' in
            let place : offset + (index + 1) ≡ offset + index + 1 = omega arith in
            (
              suc n,
              rw fits (
                  more
                  ∙ ap (λ l. l ++ take n (listing (offset + (index + 1)) rest))
                      (d.add-fits r e fits)
                  ∙ append_assoc (d.added r) (e ∷ []) (take n (listing (offset + (index + 1)) rest))
                  ∙ ap (λ p. d.added r ++ e ∷ take n (listing p rest)) place),
              rw fits
                  (elim ends [ inl all ↦ inl (omega (arith, all)) | inr stopped ↦ inr stopped ]),
            )
      ]

  -- Listing a directory from an offset changes nothing, and adds to the reply a run of the listing
  -- of the whole directory that starts at that offset and goes on to its end, or to where an entry did
  -- not fit into the buffer. An entry carries its own place plus one, so
  -- that a call with the last entry's offset goes on with the entry behind it.
  pub readdir-listing :
      (i : Inode) (offset : ℕ) (es : DirectoryDescriptor) (r : d.Buffer) (s : Fs)
      → s.mount.directories i ≡ some es
      → (r' : d.Buffer) × (n : ℕ) × (readdir d i (pos offset) r s ≡ (ok r', s))
        × (d.added r' ≡ d.added r ++ take n (drop offset (listing 0 es)))
        × ((length es ≤ offset + n) ⊎ Full r')
  unfolding readdir get_directory_content on_mount Mount.get_directory_content ◌>>=◌
  readdir-listing i offset es r s found =
      let (n, run, ends) = fill-listing offset 0 (drop offset es) r in
      let place : offset + 0 ≡ 0 + offset = omega arith in
      (
        fill d offset 0 (drop offset es) r,
        n,
        rw found refl,
        run
            ∙ ap (λ p. d.added r ++ take n (listing p (drop offset es))) place
            ∙ ap (λ l. d.added r ++ take n l) (listing-drop offset 0 es),
        elim ends [
          | inl all ↦ inl (omega (arith, all, length-drop offset es))
          | inr stopped ↦ inr stopped
        ],
      )
