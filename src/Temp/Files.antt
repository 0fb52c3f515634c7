-- ===== src/Temp/Files.antt =====
-- A temporary file from its constructor to its destructor, nstl/nstl/temp_dir.cpp.
use nstl.Prelude.{
  ℕ, zero, suc, ◌≡◌, refl, ◌∙◌, ◌≢◌, ◌⊎◌, inl, inr, Bool, true, false, not, Option, none, some,
  arith, ltb, Bool-cases, nstl_exception, Result, ok, err,
}
use nstl.Temp.{FileSystem, TempFile, make_file, opened_file, reset_handle, valid_handle}

-- What the documentation says of the calls: open with O_CREAT and O_EXCL makes a file that was not
-- there or fails, remove takes a file away or reports an error, and close does neither.
pub record FileLaws (fs : FileSystem) : Type 0 where
  pub open_made :
      (disk opened : fs.Disk) (path : fs.Name) (readable : Bool) (fd : ℕ)
      → fs.open_new disk path readable ≡ (some fd, opened)
      → (fs.exists disk path ≡ false) × (fs.exists opened path ≡ true)
  pub open_others :
      (disk opened : fs.Disk) (path other : fs.Name) (readable : Bool) (fd : Option ℕ)
      → fs.open_new disk path readable ≡ (fd, opened)
      → other ≢ path
      → fs.exists opened other ≡ fs.exists disk other
  pub open_failed :
      (disk opened : fs.Disk) (path : fs.Name) (readable : Bool)
      → fs.open_new disk path readable ≡ (none, opened)
      → fs.exists opened path ≡ fs.exists disk path
  pub path-cases : (p q : fs.Name) → (p ≡ q) ⊎ (p ≢ q)
  pub exists-close :
      (disk : fs.Disk) (fd : ℕ) (path : fs.Name)
      → fs.exists (fs.close disk fd) path ≡ fs.exists disk path
  pub remove_done :
      (disk : fs.Disk) (path : fs.Name)
      → (fs.remove disk path).0 ≡ true
      → fs.exists (fs.remove disk path).1 path ≡ false
  pub remove_failed :
      (disk : fs.Disk) (path : fs.Name)
      → (fs.remove disk path).0 ≡ false
      → fs.exists (fs.remove disk path).1 path ≡ fs.exists disk path
  pub remove_others :
      (disk : fs.Disk) (path other : fs.Name)
      → other ≢ path
      → fs.exists (fs.remove disk path).1 other ≡ fs.exists disk other

module _ (fs : FileSystem) (laws : FileLaws fs) where
  pub exists-reset_handle :
      (handler : Option ℕ) (disk : fs.Disk) (p : fs.Name)
      → fs.exists (reset_handle fs handler disk) p ≡ fs.exists disk p
  unfolding reset_handle
  exists-reset_handle none disk p = refl
  exists-reset_handle (some fd) disk p = elim (Bool-cases (valid_handle (some fd))) [
    | inl v ↦ rw v (laws.exists-close disk fd p)
    | inr v ↦ rw v refl
  ]

  -- The constructor leaves the other files alone.
  opened_file_others :
      (disk : fs.Disk) (target other : fs.Name) (owned readable : Bool)
      (answer : Option ℕ × fs.Disk)
      → fs.open_new disk target readable ≡ answer
      → other ≢ target
      → fs.exists (opened_file fs target owned readable answer).1 other ≡ fs.exists disk other
  unfolding opened_file
  opened_file_others disk target other owned readable (fd, opened) e ne =
      let kept = laws.open_others disk opened target other readable fd e ne in
      elim (Bool-cases (valid_handle fd)) [
        | inl v ↦ rw v kept
        | inr v ↦ rw v (exists-reset_handle fd opened other ∙ kept)
      ]

  pub make_file_others :
      (disk : fs.Disk) (parent name other : fs.Name) (readable : Bool)
      → other ≢ fs.join parent name
      → fs.exists (make_file fs disk parent name readable).1 other ≡ fs.exists disk other
  unfolding make_file
  make_file_others disk parent name other readable ne =
      opened_file_others disk (fs.join parent name) other _ readable _ refl ne

  -- The constructor where open fails, where it gives the descriptor 0, and elsewhere.
  module _ (disk : fs.Disk) (target : fs.Name) (readable : Bool) where
    abbrev pub Refused : Result (TempFile fs) × fs.Disk → Type 0
    Refused (made, later) =
        (made ≡ err nstl_exception) × (fs.exists later target ≡ fs.exists disk target)

    abbrev pub Stranded : Result (TempFile fs) × fs.Disk → Type 0
    Stranded (made, later) =
        (made ≡ err nstl_exception)
        × (fs.exists disk target ≡ false)
        × (fs.exists later target ≡ true)

    abbrev pub Made : ℕ → Result (TempFile fs) × fs.Disk → Type 0
    Made fd (made, later) =
        (made
          ≡ ok (record { target = target; owned = true; readable = readable; handler = some fd }))
        × (fs.exists disk target ≡ false)
        × (fs.exists later target ≡ true)

    abbrev Answered : Option ℕ → Result (TempFile fs) × fs.Disk → Type 0
    Answered answer made =
        ((answer ≡ none) × Refused made)
        ⊎ ((answer ≡ some 0) × Stranded made)
        ⊎ ((fd : ℕ) × (answer ≡ some (suc fd)) × Made (suc fd) made)

    opened_file_cases :
        (answer : Option ℕ × fs.Disk)
        → fs.open_new disk target readable ≡ answer
        → Answered answer.0 (opened_file fs target (not (fs.exists disk target)) readable answer)
    unfolding opened_file valid_handle reset_handle
    opened_file_cases (none, opened) e =
        inl (refl, (refl, laws.open_failed disk opened target readable e))
    opened_file_cases (some zero, opened) e =
        let (before, behind) = laws.open_made disk opened target readable 0 e in
        inr (inl (refl, (refl, before, behind)))
    opened_file_cases (some (suc fd), opened) e =
        let (before, behind) = laws.open_made disk opened target readable (suc fd) e in
        let positive : ltb 0 (suc fd) ≡ true = ground arith in
        inr (inr (fd, refl, (simp (positive, before) refl, before, simp positive behind)))

  -- The constructor of a temporary file throws and makes no file where open fails, and elsewhere
  -- owns a file that was not there before and is now, whose descriptor is open's; but where the
  -- descriptor is 0, which open gives while standard input is closed, it throws behind the making of
  -- the file, which stays on the disk.
  pub make_file_cases :
      (disk : fs.Disk) (parent name : fs.Name) (readable : Bool)
      → let target = fs.join parent name in
        let answer = (fs.open_new disk target readable).0 in
        let made = make_file fs disk parent name readable in
        ((answer ≡ none) × Refused disk target readable made)
        ⊎ ((answer ≡ some 0) × Stranded disk target readable made)
        ⊎ ((fd : ℕ) × (answer ≡ some (suc fd)) × Made disk target readable (suc fd) made)
  unfolding make_file
  make_file_cases disk parent name readable =
      opened_file_cases disk (fs.join parent name) readable _ refl
