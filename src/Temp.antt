-- ===== src/Temp.antt =====
-- nstl/nstl/temp_dir.cpp: temporary directories and files, with the file handle of
-- nstl/nstl/handle_raii.hpp. The file system and the random numbers are arguments.
pub mod Names
pub mod Files
pub mod Moves
use nstl.Prelude.{
  ℕ, zero, suc, ◌+◌, ◌-◌, ◌*◌, ◌/◌, ◌%◌, ◌^◌, ◌≤◌, ◌<◌, min, ◌≡◌, refl, sym, ap, ◌∙◌, ◌≢◌, ◌↔◌, ◌⊎◌,
  inl, inr, Bool, true, false, ◌&&◌, ◌||◌, not, Option, none, some, List, [], ◌∷◌, ◌++◌, map,
  append-nil, append_assoc, arith, ltb, leb, ◌==◌, if◌then◌else◌, ltb→lt, lt→ltb, leb→le, le→leb,
  ==_iff, tests, Bool-cases, Option-cases, all_below, all_below_sound, length, get_elem?, take,
  drop, replicate, length-append, take-append-drop, length-take, length-drop, length-replicate,
  take-append, drop-append, take-append_of_le, take-append_of_ge, append-replicate, take_of_ge,
  drop_of_ge, length-map, All, All-append, Exception, nstl_exception, length_error, bad_alloc,
  runtime_error, out_of_range, invalid_argument, Result, ok, err, ◌>>=◌, ◌>>◌, throw_if, >>=-eq-ok,
  Result-cases, get_elem?_of_lt, nil_of_length, find, c_string, codes, drop_next,
}

-- What the sources call of the file system. A descriptor is an int: `none` is a negative one.
-- `create_directories` tells whether it created the directory; its err is what it throws.
pub record FileSystem : Type 1 where
  pub Disk : Type 0
  pub Name : Type 0
  pub no_path : Name
  pub join : Name → Name → Name
  pub file_name : List ℕ → Name
  pub exists : Disk → Name → Bool
  pub create_directories : Disk → Name → Result (Bool × Disk)
  pub chmod_750 : Disk → Name → Bool × Disk
  pub remove_all : Disk → Name → Disk
  pub open_new : Disk → Name → Bool → Option ℕ × Disk
  pub close : Disk → ℕ → Disk
  -- Whether there is no error, and the disk behind the call.
  pub remove : Disk → Name → Bool × Disk

-- std::getenv and fs::temp_directory_path, for the directory of temporary files.
unfoldable pub temp_directory_path :
    {P : Type 0} → (List ℕ → P) → Option (List ℕ) → Result P → Result P
temp_directory_path path none fallback = fallback
temp_directory_path path (some []) fallback = fallback
temp_directory_path path (some (c ∷ s)) fallback = ok (path (c ∷ s))

-- The loop of random_file_name; `draw` is dist(engine), which changes the engine.
module _ {Engine : Type 0} (draw : Engine → ℕ × Engine) where
  unfoldable pub name_loop : ℕ → Engine → List ℕ × Engine
  name_loop zero engine = ([], engine)
  name_loop (suc len) engine =
      let (letter, next) = draw engine in
      let (text, last) = name_loop len next in (letter ∷ text, last)

  unfoldable pub random_file_name : ℕ → Engine → Result (List ℕ × Engine)
  random_file_name len engine = throw_if (len == 0) nstl_exception >> ok (name_loop len engine)

-- FileIntHandle::valid; a negative descriptor is `none`.
unfoldable pub valid_handle : Option ℕ → Bool
valid_handle none = false
valid_handle (some fd) = ltb 0 fd

module _ (fs : FileSystem) where
  pub record TempDir : Type 0 where
    pub target : fs.Name
    pub owned : Bool

  -- temp_dir's constructor from a parent and a name, and its destructor.
  unfoldable pub make_dir : fs.Disk → fs.Name → fs.Name → Result TempDir × fs.Disk
  make_dir disk parent name =
      let target : fs.Name = fs.join parent name in
      elim (fs.create_directories disk target) [
        | err thrown ↦ (err thrown, disk)
        | ok (owned, made) ↦
            let (done, changed) = fs.chmod_750 made target in
            if not owned
            then (err nstl_exception, made)
            else if not done
            then (err nstl_exception, changed)
            else (ok (record { target = target; owned = owned }), changed)
      ]

  unfoldable pub drop_dir : TempDir → fs.Disk → fs.Disk
  drop_dir dir disk = if not dir.owned then disk else fs.remove_all disk dir.target

  pub record TempFile : Type 0 where
    pub target : fs.Name
    pub owned : Bool
    pub readable : Bool
    pub handler : Option ℕ

  -- temp_file's constructor from a null option.
  abbrev pub empty_file : TempFile
  empty_file = record { target = fs.no_path; owned = false; readable = false; handler = none }

  -- custom_raii::reset without an argument, of a file handle.
  unfoldable pub reset_handle : Option ℕ → fs.Disk → fs.Disk
  reset_handle none disk = disk
  reset_handle (some fd) disk = if valid_handle (some fd) then fs.close disk fd else disk

  -- The constructor, with its body behind open; a throw there destroys the handle.
  unfoldable pub opened_file :
      fs.Name → Bool → Bool → Option ℕ × fs.Disk → Result TempFile × fs.Disk
  opened_file target owned readable (fd, opened) =
      if not (valid_handle fd) then (err nstl_exception, reset_handle fd opened) else (
        ok (record { target = target; owned = owned; readable = readable; handler = fd }),
        opened,
      )

  unfoldable pub make_file : fs.Disk → fs.Name → fs.Name → Bool → Result TempFile × fs.Disk
  make_file disk parent name readable =
      let target : fs.Name = fs.join parent name in
      opened_file target (not (fs.exists disk target)) readable (fs.open_new disk target readable)

  unfoldable pub drop_file : TempFile → fs.Disk → fs.Disk
  drop_file file disk =
      let closed : fs.Disk = reset_handle file.handler disk in
      if valid_handle file.handler
      then (if file.owned then (fs.remove closed file.target).1 else closed)
      else disk

  -- The move constructor: the new file, and what it leaves of the other, whose path is `left`.
  unfoldable pub move_file : fs.Name → TempFile → TempFile × TempFile
  move_file left other = (
    record {
      target = other.target;
      owned = other.owned;
      readable = other.readable;
      handler = other.handler;
    },
    record { target = left; owned = false; readable = false; handler = none },
  )

  -- `swap`, of two different objects.
  unfoldable pub swap_files : TempFile → TempFile → TempFile × TempFile
  swap_files file other = (
    record {
      target = other.target;
      owned = other.owned;
      readable = other.readable;
      handler = other.handler;
    },
    record {
      target = file.target;
      owned = file.owned;
      readable = file.readable;
      handler = file.handler;
    },
  )

  -- Move assignment: the file, the other one and the disk behind it; `same` tells that the two are
  -- one object. The local file takes what the first swap gave to the other, and is destroyed.
  unfoldable pub assign_file : Bool → TempFile → TempFile → fs.Disk → TempFile × TempFile × fs.Disk
  assign_file true file other disk = (file, other, disk)
  assign_file false file other disk =
      let (mine, theirs) = swap_files file other in
      let (tmp, rest) = swap_files empty_file theirs in (mine, rest, drop_file tmp disk)

  unfoldable pub valid_file : TempFile → Bool
  valid_file file = valid_handle file.handler
