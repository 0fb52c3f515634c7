-- ===== src/Tests/Temp.antt =====
-- A disk that is a list of paths, and temporary files on it.
use nstl.Prelude.{
  ℕ, suc, ◌+◌, ◌%◌, ◌<◌, ◌≡◌, refl, sym, ap, ◌∙◌, ◌≢◌, ◌⊎◌, inl, inr, Bool, true, false, ◌||◌,
  Option, none, some, List, [], ◌∷◌, ◌++◌, arith, if◌then◌else◌, Bool-cases, length, All,
  nstl_exception, ok, err, codes, same_text, same_text_iff, text-cases, same_text_self,
  same_text_of_ne,
}
use nstl.Temp.{
  FileSystem, TempFile, empty_file, make_file, opened_file, drop_file, assign_file, move_file,
  swap_files, valid_handle, reset_handle, random_file_name, name_loop, make_dir,
}
use nstl.Temp.Names.{IsLetter, random_file_name_cases}
use nstl.Temp.Files.{FileLaws, Refused, Stranded, Made, make_file_cases}
use nstl.Temp.Moves.{owned_path, Releases, assign_file-Releases, drop_file-make_file}

abbrev Paths : Type 0
Paths = List (List ℕ)

abbrev holds : Paths → List ℕ → Bool
holds [] path = false
holds (p ∷ ps) path = same_text path p || holds ps path

abbrev take_away : Paths → List ℕ → Paths
take_away [] path = []
take_away (p ∷ ps) path =
    let rest = take_away ps path in if same_text path p then rest else p ∷ rest

abbrev open_path : Paths → List ℕ → Option ℕ × Paths
open_path disk path = if holds disk path then (none, disk) else (some (length disk), path ∷ disk)

abbrev list_disk : FileSystem
list_disk = record {
  Disk = Paths;
  Name = List ℕ;
  no_path = [];
  join = λ parent name. parent ++ codes "/" ++ name;
  file_name = λ text. text;
  exists = holds;
  create_directories =
      λ disk path. if holds disk path then ok (false, disk) else ok (true, path ∷ disk);
  chmod_750 = λ disk path. (true, disk);
  remove_all = take_away;
  open_new = λ disk path readable. open_path disk path;
  close = λ disk fd. disk;
  remove = λ disk path. (true, take_away disk path);
}

holds-take_away : (disk : Paths) (path : List ℕ) → holds (take_away disk path) path ≡ false
holds-take_away [] path = refl
holds-take_away (p ∷ ps) path = ground (arith, holds-take_away ps path)

holds-take_away_other :
    (disk : Paths) (path other : List ℕ)
    → other ≢ path
    → holds (take_away disk path) other ≡ holds disk other
holds-take_away_other [] path other ne = refl
holds-take_away_other (p ∷ ps) path other ne = elim (text-cases path p) [
  | inl e ↦
      let here = (same_text_iff path p).1 e in
      let there = same_text_of_ne other p (λ eq. ne (eq ∙ sym e)) in
      ground (arith, here, there, holds-take_away_other ps path other ne)
  | inr differs ↦
      let here = same_text_of_ne path p differs in
      ground (arith, here, holds-take_away_other ps path other ne)
]

open_path_made :
    (disk opened : Paths) (path : List ℕ) (fd : ℕ)
    → open_path disk path ≡ (some fd, opened)
    → (holds disk path ≡ false) × (holds opened path ≡ true)
open_path_made disk opened path fd e =
    let here = same_text_self path in
    elim (Bool-cases (holds disk path)) [
      | inl there ↦
          let refused =
            sym e ∙ ap (λ b. if b then (none, disk) else (some (length disk), path ∷ disk)) there in
          cc
      | inr absent ↦
          let made =
            sym e
            ∙ ap (λ b. if b then (none, disk) else (some (length disk), path ∷ disk)) absent in
          let at : opened ≡ path ∷ disk = ap (λ m. m.1) made in
          (absent, ap (λ d. holds d path) at ∙ ap (λ b. b || holds disk path) here)
    ]

open_path_others :
    (disk : Paths) (path other : List ℕ)
    → other ≢ path
    → holds (open_path disk path).1 other ≡ holds disk other
open_path_others disk path other ne =
    let here = same_text_of_ne other path ne in ground (arith, here)

open_path_failed :
    (disk opened : Paths) (path : List ℕ)
    → open_path disk path ≡ (none, opened)
    → holds opened path ≡ holds disk path
open_path_failed disk opened path e = elim (Bool-cases (holds disk path)) [
  | inl there ↦
      let refused =
        sym e ∙ ap (λ b. if b then (none, disk) else (some (length disk), path ∷ disk)) there in
      let at : opened ≡ disk = ap (λ m. m.1) refused in ap (λ d. holds d path) at
  | inr absent ↦
      let made =
        sym e ∙ ap (λ b. if b then (none, disk) else (some (length disk), path ∷ disk)) absent in
      cc
]

list_disk_laws : FileLaws list_disk
list_disk_laws = record {
  open_made = λ disk opened path readable fd e. open_path_made disk opened path fd e;
  open_others = λ disk opened path other readable fd e ne.
      ap (λ m. holds m.1 other) (sym e) ∙ open_path_others disk path other ne;
  open_failed = λ disk opened path readable e. open_path_failed disk opened path e;
  path-cases = text-cases;
  exists-close = λ disk fd path. refl;
  remove_done = λ disk path e. holds-take_away disk path;
  remove_failed = λ disk path e. cc;
  remove_others = holds-take_away_other;
}

abbrev disk : Paths
disk = codes "t/old" ∷ []

abbrev file : TempFile list_disk
file = record { target = codes "t/f"; owned = true; readable = true; handler = some 1 }

abbrev other : TempFile list_disk
other = record { target = codes "t/g"; owned = true; readable = false; handler = some 2 }

abbrev given : Option ℕ
given = some 1

make_file_cases_example :
    ((given ≡ none)
      × Refused list_disk list_disk_laws disk
          (codes "t/f")
          true
          (make_file list_disk disk (codes "t") (codes "f") true))
    ⊎ ((given ≡ some 0)
        × Stranded list_disk list_disk_laws disk
            (codes "t/f")
            true
            (make_file list_disk disk (codes "t") (codes "f") true))
    ⊎ ((fd : ℕ) × (given ≡ some (suc fd))
        × Made list_disk list_disk_laws disk
            (codes "t/f")
            true
            (suc fd)
            (make_file list_disk disk (codes "t") (codes "f") true))
make_file_cases_example = make_file_cases list_disk list_disk_laws disk (codes "t") (codes "f") true

makes : make_file list_disk disk (codes "t") (codes "f") true ≡ (ok file, codes "t/f" ∷ disk)
unfolding make_file opened_file valid_handle
makes = refl

-- The disk is empty, and open gives the descriptor 0.
strands :
    make_file list_disk [] (codes "t") (codes "f") true ≡ (err nstl_exception, codes "t/f" ∷ [])
unfolding make_file opened_file valid_handle reset_handle
strands = refl

drop_file-make_file_example :
    holds (drop_file list_disk file (codes "t/f" ∷ disk)) (codes "t/f") ≡ holds disk (codes "t/f")
drop_file-make_file_example =
    drop_file-make_file list_disk list_disk_laws disk (codes "t/f" ∷ disk) (codes "t/f" ∷ disk)
      (codes "t") (codes "f") true file makes (λ p. refl) refl (codes "t/f")

abbrev both : Paths
both = codes "t/f" ∷ codes "t/g" ∷ disk

assigns :
    assign_file list_disk false file other both ≡ (other, empty_file list_disk, codes "t/g" ∷ disk)
unfolding assign_file swap_files drop_file valid_handle reset_handle
assigns = refl

assign_file-Releases_example :
    Releases list_disk file both (drop_file list_disk file both)
    × (let (mine, rest, later) = assign_file list_disk false file other both in
        (mine ≡ other) × (rest ≡ empty_file list_disk) × Releases list_disk file both later)
    × (let (mine, rest) = move_file list_disk [] other in
        (mine ≡ other) × (owned_path list_disk rest ≡ none) × (valid_handle rest.handler ≡ false))
    × (assign_file list_disk true file file both ≡ (file, file, both))
assign_file-Releases_example = assign_file-Releases list_disk list_disk_laws file other both []

abbrev count_up : ℕ → ℕ × ℕ
count_up engine = (97 + engine % 26, engine + 1)

abbrev letters : (engine : ℕ) → IsLetter (count_up engine).0
letters engine = (omega arith, omega arith)

draws : random_file_name count_up 3 24 ≡ ok (codes "yza", 27)
unfolding random_file_name name_loop
draws = refl

abbrev count : ℕ
count = 3

random_file_name_cases_example :
    ((count ≡ 0) × (random_file_name count_up count 24 ≡ err nstl_exception))
    ⊎ ((0 < count)
        × (text : List ℕ) × (last : ℕ) × (random_file_name count_up count 24 ≡ ok (text, last))
        × (length text ≡ count)
        × All IsLetter text)
random_file_name_cases_example = random_file_name_cases count_up count 24 letters

makes_dir :
    make_dir list_disk disk (codes "t") (codes "d")
    ≡ (ok (record { target = codes "t/d"; owned = true }), codes "t/d" ∷ disk)
unfolding make_dir
makes_dir = refl
