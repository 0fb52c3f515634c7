-- ===== src/Tests/Hash.antt =====
-- Runs of the hashes, with a digest that keeps its data.
use nstl.Prelude.{
  ℕ, zero, suc, ◌*◌, ◌^◌, ◌≡◌, refl, sym, true, some, List, [], ◌∷◌, ◌++◌, append-nil, append_assoc,
  arith, take, drop, min, length, length-take, length-drop, ap, replicate, ok, codes,
}
use nstl.Hash.{
  md5, sha256, HashValue, Hasher, HasherLaws, InputFile, hash_file, hash_to_hex, hex_loop,
}
use nstl.Hash.File.{ReadLaws, hash_file-ReadLaws, hash_file_cut}

abbrev hash : HashValue
hash = record { hash_type = md5; bytes = 0x0A ∷ 0xFF ∷ replicate 14 7 }

hex_text : take 4 (hash_to_hex hash) ≡ codes "0AFF"
unfolding hash_to_hex hex_loop
hex_text = refl

take_again : (n : ℕ) (xs : List ℕ) → take n xs ≡ take (length (take n xs)) xs
take_again zero xs = refl
take_again (suc n) [] = refl
take_again (suc n) (x ∷ xs) = ap (x ∷◌) (take_again n xs)

abbrev keeper : Hasher
keeper = record {
  State = List ℕ;
  factory = λ type. [];
  add = λ s bytes. s ++ bytes;
  finish = λ s. record { hash_type = sha256; bytes = s };
}

keeper_laws : HasherLaws keeper
keeper_laws = record { add-nothing = append-nil; add-append = λ s a b. sym (append_assoc s a b) }

-- A system that gives two bytes at a time where the buffer holds as many.
abbrev file : InputFile
file = record {
  is_open = true;
  read = λ k offset size. some (take (min size 2) (drop offset (1 ∷ 2 ∷ 3 ∷ [])));
}

file_laws : ReadLaws file (1 ∷ 2 ∷ 3 ∷ [])
file_laws = record {
  reads = λ k offset size.
      let held : List ℕ = 1 ∷ 2 ∷ 3 ∷ [] in
      let left = drop offset held in
      let taken = length-take (min size 2) left in
      let there = length-drop offset held in
      (
        take (min size 2) left,
        refl,
        omega (arith, taken),
        omega (arith, taken),
        take_again (min size 2) left,
        λ some_size before. omega (arith, taken, there),
      );
}

hash_file-ReadLaws_example :
    hash_file keeper 4 (codes "a.txt") file sha256 2
    ≡ some (ok (record { hash_type = sha256; bytes = 1 ∷ 2 ∷ 3 ∷ [] }))
hash_file-ReadLaws_example =
    hash_file-ReadLaws keeper keeper_laws 4 (codes "a.txt") file sha256 2 (1 ∷ 2 ∷ 3 ∷ [])
      (omega arith) refl (omega arith) file_laws (omega arith)

hash_file_cut_example :
    hash_file keeper 3 (codes "a.txt") file sha256 (2 ^ 32 * suc 0)
    ≡ some (ok (record { hash_type = sha256; bytes = [] }))
hash_file_cut_example =
    hash_file_cut keeper keeper_laws 2 0 (codes "a.txt") file sha256 (omega arith) refl refl
