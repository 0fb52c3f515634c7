-- ===== src/Temp/Names.antt =====
-- The names of temporary files, nstl/nstl/temp_dir.cpp.
use nstl.Prelude.{
  ℕ, zero, suc, ◌≤◌, ◌<◌, ◌≡◌, refl, ap, ◌⊎◌, inl, inr, false, List, arith, ◌==◌, length, All,
  nstl_exception, ok, err, ◌>>◌, throw_if,
}
use nstl.Temp.{name_loop, random_file_name}

abbrev pub IsLetter : ℕ → Type 0
IsLetter c = (97 ≤ c) × (c ≤ 122)

module _ {Engine : Type 0} (draw : Engine → ℕ × Engine) where
  length-name_loop : (len : ℕ) (engine : Engine) → length (name_loop draw len engine).0 ≡ len
  unfolding name_loop
  length-name_loop zero engine = refl
  length-name_loop (suc len) engine = ap suc (length-name_loop len (draw engine).1)

  name_loop-IsLetter :
      (len : ℕ) (engine : Engine)
      → ((e : Engine) → IsLetter (draw e).0)
      → All IsLetter (name_loop draw len engine).0
  unfolding name_loop
  name_loop-IsLetter zero engine range = tt
  name_loop-IsLetter (suc len) engine range =
      (range engine, name_loop-IsLetter len (draw engine).1 range)

  -- Where the distribution keeps to its bounds, 'a' and 'z', random_file_name throws for the length
  -- 0 only, and for any other gives that many small letters.
  pub random_file_name_cases :
      (len : ℕ) (engine : Engine)
      → ((e : Engine) → IsLetter (draw e).0)
      → ((len ≡ 0) × (random_file_name draw len engine ≡ err nstl_exception))
        ⊎ ((0 < len)
            × (text : List ℕ) × (last : Engine) × (random_file_name draw len engine
                ≡ ok (text, last))
            × (length text ≡ len)
            × All IsLetter text)
  unfolding random_file_name
  random_file_name_cases zero engine range = inl (refl, refl)
  random_file_name_cases (suc len) engine range =
      let at_suc : (suc len == 0) ≡ false = ground arith in
      inr (
        omega arith,
        (name_loop draw (suc len) engine).0,
        (name_loop draw (suc len) engine).1,
        ap (λ b. throw_if b nstl_exception >> ok (name_loop draw (suc len) engine)) at_suc,
        length-name_loop (suc len) engine,
        name_loop-IsLetter (suc len) engine range,
      )
