-- ===== src/Temp/Moves.antt =====
-- The moves of temporary files and what they leave on the disk, nstl/nstl/temp_dir.cpp.
use nstl.Prelude.{
  suc, ◌≡◌, refl, sym, ap, ◌∙◌, ◌≢◌, ◌⊎◌, inl, inr, Bool, true, false, ◌&&◌, Option, none, some,
  arith, if◌then◌else◌, Bool-cases, ok,
}
use mathlib.Core.Path.{subst}
use nstl.Temp.{
  FileSystem, TempFile, empty_file, drop_file, reset_handle, valid_handle, move_file, swap_files,
  assign_file, make_file,
}
use nstl.Temp.Files.{FileLaws, exists-reset_handle, make_file_cases, make_file_others}

module _ (fs : FileSystem) where
  -- The path that an object removes at its end.
  abbrev pub owned_path : TempFile fs → Option fs.Name
  owned_path file = if valid_handle file.handler && file.owned then some file.target else none

  -- Whether the removal of a path by the destructor succeeds, on the disk behind the close.
  abbrev pub removes : TempFile fs → fs.Disk → fs.Name → Bool
  removes file disk p = (fs.remove (reset_handle fs file.handler disk) p).0

  -- The disk without the path that the object owns, where that is removed, and otherwise the same.
  abbrev pub Releases : TempFile fs → fs.Disk → fs.Disk → Type 0
  Releases file disk later =
      ((p : fs.Name)
        → owned_path file ≡ some p
        → ((removes file disk p ≡ true) × (fs.exists later p ≡ false))
          ⊎ ((removes file disk p ≡ false) × (fs.exists later p ≡ fs.exists disk p)))
      × ((p : fs.Name) → owned_path file ≢ some p → fs.exists later p ≡ fs.exists disk p)

module _ (fs : FileSystem) (laws : FileLaws fs) where
  remove_target :
      (file : TempFile fs) (disk : fs.Disk)
      → let closed = reset_handle fs file.handler disk in
        ((removes fs file disk file.target ≡ true)
          × (fs.exists (fs.remove closed file.target).1 file.target ≡ false))
        ⊎ ((removes fs file disk file.target ≡ false)
            × (fs.exists (fs.remove closed file.target).1 file.target ≡ fs.exists disk file.target))
  remove_target file disk =
      let closed = reset_handle fs file.handler disk in
      elim (Bool-cases (fs.remove closed file.target).0) [
        | inl done ↦ inl (done, laws.remove_done closed file.target done)
        | inr refused ↦ inr (
          refused,
          laws.remove_failed closed file.target refused
              ∙ exists-reset_handle fs laws file.handler disk file.target,
        )
      ]

  pub drop_file-Releases :
      (file : TempFile fs) (disk : fs.Disk) → Releases fs file disk (drop_file fs file disk)
  unfolding drop_file
  drop_file-Releases file disk = elim (Bool-cases (valid_handle file.handler)) [
    | inr v ↦ simp v (λ p e. cc, λ p e. refl)
    | inl v ↦ elim (Bool-cases file.owned) [
      | inr o ↦ simp (v, o) (λ p e. cc, λ p e. exists-reset_handle fs laws file.handler disk p)
      | inl o ↦
          let closed = reset_handle fs file.handler disk in
          simp (v, o)
            (
              λ p e.
                  let at_target : file.target ≡ p = cc in
                  subst
                    (λ q.
                      (((fs.remove closed q).0 ≡ true)
                        × (fs.exists (fs.remove closed file.target).1 q ≡ false))
                      ⊎ (((fs.remove closed q).0 ≡ false)
                          × (fs.exists (fs.remove closed file.target).1 q ≡ fs.exists disk q)))
                    at_target (remove_target file disk),
              λ p e.
                  laws.remove_others closed file.target p (λ at_target. e (ap some (sym at_target)))
                  ∙ exists-reset_handle fs laws file.handler disk p,
            )
    ]
  ]

  -- The end of a temporary file takes the path that it owns off the disk, if the removal succeeds, and
  -- no other path in any case. Move assignment from
  -- another object ends what the object owned before, gives it all that the other one held and
  -- leaves that empty; the move constructor takes over the same way. Assignment to itself does
  -- nothing.
  pub assign_file-Releases :
      (file other : TempFile fs) (disk : fs.Disk) (left : fs.Name)
      → Releases fs file disk (drop_file fs file disk)
        × (let (mine, rest, later) = assign_file fs false file other disk in
            (mine ≡ other) × (rest ≡ empty_file fs) × Releases fs file disk later)
        × (let (mine, rest) = move_file fs left other in
            (mine ≡ other) × (owned_path fs rest ≡ none) × (valid_handle rest.handler ≡ false))
        × (assign_file fs true file file disk ≡ (file, file, disk))
  unfolding assign_file swap_files move_file valid_handle
  assign_file-Releases file other disk left = (
    drop_file-Releases file disk,
    (refl, refl, drop_file-Releases file disk),
    (refl, refl, refl),
    refl,
  )

  drop_owned :
      (file : TempFile fs) (disk later : fs.Disk)
      → removes fs file later file.target ≡ true
      → valid_handle file.handler ≡ true
      → file.owned ≡ true
      → fs.exists disk file.target ≡ false
      → ((p : fs.Name) → p ≢ file.target → fs.exists later p ≡ fs.exists disk p)
      → (p : fs.Name) → fs.exists (drop_file fs file later) p ≡ fs.exists disk p
  drop_owned file disk later removed v o before others p =
      let (gone, kept) = drop_file-Releases file later in
      let owns : owned_path fs file ≡ some file.target = simp (v, o) refl in
      elim (laws.path-cases p file.target) [
        | inl e ↦ elim (gone p (owns ∙ ap some (sym e))) [
          | inl (done, absent) ↦ absent ∙ sym (ap (fs.exists disk) e ∙ before)
          | inr (refused, kept_it) ↦
              let again = sym (ap (removes fs file later) e) ∙ refused in absurd cc
        ]
        | inr ne ↦
            kept p (λ q. let at : some file.target ≡ some p = sym owns ∙ q in ne cc) ∙ others p ne
      ]

  -- A temporary file whose constructor returned, and which is destroyed while the disk holds the
  -- same files as behind the constructor, and whose path is then removed without an error, leaves the disk with the files that it had before.
  pub drop_file-make_file :
      (disk made later : fs.Disk) (parent name : fs.Name) (readable : Bool) (file : TempFile fs)
      → make_file fs disk parent name readable ≡ (ok file, made)
      → ((p : fs.Name) → fs.exists later p ≡ fs.exists made p)
      → removes fs file later file.target ≡ true
      → (p : fs.Name) → fs.exists (drop_file fs file later) p ≡ fs.exists disk p
  unfolding valid_handle
  drop_file-make_file disk made later parent name readable file did same removed p =
      let target = fs.join parent name in
      let returned = ap (λ m. m.0) did in
      let left = ap (λ m. m.1) did in
      elim (make_file_cases fs laws disk parent name readable) [
        | inl (answer, (thrown, kept)) ↦ cc
        | inr (inl (answer, (thrown, before, behind))) ↦ cc
        | inr (inr (fd, answer, (e, before, behind))) ↦
            let it : record {
              target = target;
              owned = true;
              readable = readable;
              handler = some (suc fd);
            }
                ≡ file =
              cc in
            subst
              (λ f.
                removes fs f later f.target ≡ true
                → fs.exists (drop_file fs f later) p ≡ fs.exists disk p)
              it
              (λ ok_removed.
                drop_owned
                  (record {
                    target = target;
                    owned = true;
                    readable = readable;
                    handler = some (suc fd);
                  })
                  disk later ok_removed (ground arith) refl before
                  (λ q ne.
                    same q
                    ∙ ap (λ d. fs.exists d q) (sym left)
                    ∙ make_file_others fs laws disk parent name q readable ne)
                  p)
              removed
      ]
