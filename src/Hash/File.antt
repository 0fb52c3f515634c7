-- ===== src/Hash/File.antt =====
-- Hashing a file piece by piece, nstl/nstl/datahash.cpp.
use nstl.Prelude.{
  ℕ, zero, suc, ◌+◌, ◌*◌, ◌%◌, ◌^◌, ◌≤◌, ◌<◌, ◌≡◌, refl, sym, ap, ◌∙◌, inl, inr, true, false,
  Bool-cases, Option, some, List, [], ◌∷◌, ◌++◌, arith, leb, ◌==◌, length, take, drop, length-drop,
  length-take, min, drop_of_ge, take-append-drop, take_of_ge, nil_of_length, ok,
}
use nstl.Hash.{
  HashType, Hasher, HasherLaws, InputFile, read_bytes, read_loop, finished, hash_file_impl,
  hash_file,
}

-- What the system says of the reads of a file that holds some bytes and that nothing changes: a read
-- gives bytes at the offset, at most as many as the buffer holds and fewer than 2 ^ 31, and, where the
-- buffer is not empty, none only at the end.
pub record ReadLaws (file : InputFile) (bytes : List ℕ) : Type 0 where
  pub reads :
      (k offset size : ℕ)
      → (chunk : List ℕ) × (file.read k offset size ≡ some chunk)
        × (length chunk ≤ size)
        × (length chunk < 2 ^ 31)
        × (chunk ≡ take (length chunk) (drop offset bytes))
        × (0 < size → offset < length bytes → 0 < length chunk)

drop_more : (n offset : ℕ) (bytes : List ℕ) → drop (offset + n) bytes ≡ drop n (drop offset bytes)
drop_more n zero bytes = let e : zero + n ≡ n = omega arith in ap (λ k. drop k bytes) e
drop_more zero (suc offset) [] =
    let e : suc offset + zero ≡ suc offset = omega arith in ap (λ k. drop k []) e
drop_more (suc n) (suc offset) [] =
    let e : suc offset + suc n ≡ suc (offset + suc n) = omega arith in ap (λ k. drop k []) e
drop_more n (suc offset) (b ∷ bytes) =
    let e : suc offset + n ≡ suc (offset + n) = omega arith in
    ap (λ k. drop k (b ∷ bytes)) e ∙ drop_more n offset bytes

at_the_end : (n offset total : ℕ) → (n == 0) ≡ true → (offset < total → 0 < n) → total ≤ offset
at_the_end n offset total nothing moves = elim (Bool-cases (leb total offset)) [
  | inl e ↦ ground arith
  | inr e ↦
      let before : offset < total = ground arith in
      let some_byte = moves before in absurd (ground arith)
]

shorter :
    (n offset fuel : ℕ) (bytes chunk : List ℕ)
    → 0 < n
    → chunk ≡ take n (drop offset bytes)
    → length chunk ≡ n
    → length (drop offset bytes) < suc fuel
    → length (drop (offset + n) bytes) < fuel
shorter n offset fuel bytes chunk some_byte here sized enough =
    let taken : n ≡ min n (length (drop offset bytes)) =
      sym sized ∙ ap length here ∙ length-take n (drop offset bytes) in
    omega (arith, length-drop offset bytes, length-drop (offset + n) bytes, taken)

module _ (hasher : Hasher) (laws : HasherLaws hasher) where
  -- A round of the loop whose read gives a piece that an int can count.
  round_ends :
      (fuel : ℕ) (read : ℕ → ℕ → Option (List ℕ)) (k offset : ℕ) (s : hasher.State)
      → read k offset ≡ some []
      → read_loop hasher (suc fuel) read k offset s ≡ some (ok s)
  unfolding read_loop
  round_ends fuel read k offset s e = rw (e, read_loop) refl

  round_adds :
      (fuel : ℕ) (read : ℕ → ℕ → Option (List ℕ)) (k offset : ℕ) (s : hasher.State) (chunk : List ℕ)
      → read k offset ≡ some chunk
      → 0 < length chunk
      → length chunk < 2 ^ 31
      → read_loop hasher (suc fuel) read k offset s
        ≡ read_loop hasher fuel read (k + 1) (offset + length chunk) (hasher.add s chunk)
  unfolding read_loop
  round_adds fuel read k offset s chunk e some_byte small =
      let count : read_bytes chunk ≡ length chunk = omega arith in
      let not_negative : leb (2 ^ 31) (read_bytes chunk) ≡ false = ground (arith, count) in
      let not_end : (read_bytes chunk == 0) ≡ false = ground (arith, count) in
      let whole : take (read_bytes chunk) chunk ≡ chunk =
        take_of_ge (read_bytes chunk) chunk (omega (arith, count)) in
      rw (e, read_loop, not_negative, not_end)
        (ap (λ c. read_loop hasher fuel read (k + 1) (offset + length chunk) (hasher.add s c))
          whole)

  module _ (file : InputFile) (bytes : List ℕ) (file_laws : ReadLaws file bytes) (size : ℕ)
      (sized : 0 < size) where
    read_loop-drop :
        (fuel k offset : ℕ) (s : hasher.State)
        → length (drop offset bytes) < fuel
        → read_loop hasher fuel (λ k offset. file.read k offset size) k offset s
          ≡ some (ok (hasher.add s (drop offset bytes)))
    read_loop-drop zero k offset s enough = absurd (omega arith)
    read_loop-drop (suc fuel) k offset s enough =
        let (chunk, e, fits, small, here, moves) = file_laws.reads k offset size in
        let read : ℕ → ℕ → Option (List ℕ) = λ k offset. file.read k offset size in
        let left = length-drop offset bytes in
        elim (Bool-cases (length chunk == 0)) [
          | inl nothing ↦
              let at_end : drop offset bytes ≡ [] =
                drop_of_ge offset bytes
                  (at_the_end (length chunk) offset (length bytes) nothing (moves sized)) in
              let empty : chunk ≡ [] = nil_of_length chunk (ground (arith, nothing)) in
              round_ends fuel read k offset s (e ∙ ap some empty)
              ∙ ap (λ t. some (ok t)) (sym (ap (hasher.add s) at_end ∙ laws.add-nothing s))
          | inr something ↦
              let some_byte : 0 < length chunk = ground (arith, something) in
              let n = length chunk in
              let more = drop_more n offset bytes in
              let rest_length = length-drop n (drop offset bytes) in
              round_adds fuel read k offset s chunk e some_byte small
              ∙ read_loop-drop fuel (k + 1) (offset + n) (hasher.add s chunk)
                  (shorter n offset fuel bytes chunk some_byte here refl enough)
              ∙ ap (λ t. some (ok t))
                  (sym (laws.add-append s chunk (drop (offset + n) bytes))
                    ∙ ap (hasher.add s) (
                        ap (chunk ++◌) more
                        ∙ ap (◌++ drop n (drop offset bytes)) here
                        ∙ take-append-drop n (drop offset bytes)))
        ]

  -- For a digest that does not depend on how its data is cut, and a file that can be opened, that
  -- nothing changes and whose reads do not fail, the hash is that of all bytes that the file holds,
  -- whatever pieces the reads give and whatever the size of the buffer, unless that is a multiple of
  -- 2 ^ 32. Fuel above the number of bytes is enough.
  pub hash_file-ReadLaws :
      (fuel : ℕ) (path : List ℕ) (file : InputFile) (type : HashType) (buffersize : ℕ)
      (bytes : List ℕ)
      → 0 < length path
      → file.is_open ≡ true
      → 0 < buffersize % 2 ^ 32
      → ReadLaws file bytes
      → length bytes < fuel
      → hash_file hasher fuel path file type buffersize
        ≡ some (ok (hasher.finish (hasher.add (hasher.factory type) bytes)))
  unfolding hash_file hash_file_impl
  hash_file-ReadLaws fuel path file type buffersize bytes named opened sized file_laws enough =
      let no_zero : (buffersize == 0) ≡ false = ground arith in
      let no_empty : (length path == 0) ≡ false = ground arith in
      simp (no_zero, no_empty, opened)
        (ap (finished hasher) (
          read_loop-drop file bytes file_laws (buffersize % 2 ^ 32) sized fuel 0 0
            (hasher.factory type) enough))

  -- A buffer size that is a multiple of 2 ^ 32 is cut to 0: if a read of no bytes gives none, the
  -- hash of a file that can be opened is that of no data, whatever the file holds.
  pub hash_file_cut :
      (fuel n : ℕ) (path : List ℕ) (file : InputFile) (type : HashType)
      → 0 < length path
      → file.is_open ≡ true
      → file.read 0 0 0 ≡ some []
      → hash_file hasher (suc fuel) path file type (2 ^ 32 * suc n)
        ≡ some (ok (hasher.finish (hasher.factory type)))
  unfolding hash_file hash_file_impl
  hash_file_cut fuel n path file type named opened empty =
      let cut : (2 ^ 32 * suc n) % 2 ^ 32 ≡ 0 = omega arith in
      let no_zero : (2 ^ 32 * suc n == 0) ≡ false = ground arith in
      let no_empty : (length path == 0) ≡ false = ground arith in
      simp (no_zero, no_empty, opened)
        (ap (finished hasher) (
          round_ends fuel (λ k offset. file.read k offset ((2 ^ 32 * suc n) % 2 ^ 32)) 0 0
            (hasher.factory type) (ap (file.read 0 0) cut ∙ empty)))
