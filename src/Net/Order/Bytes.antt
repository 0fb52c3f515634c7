-- ===== src/Net/Order/Bytes.antt =====
-- The lexicographic order of byte lists and `equal_bytes`, as nstl/nstl/ip_tools.cpp compares
-- addresses.
use nstl.Prelude.{ℕ, ◌≡◌, refl, ◌↔◌, ◌⊎◌, inl, inr, true, false, List, [], ◌∷◌, arith}
use nstl.Net.Address.{equal_bytes}
use nstl.Net.Order.{less_bytes}

pub equal_bytes_iff : (a b : List ℕ) → (equal_bytes a b ≡ true) ↔ (a ≡ b)
unfolding equal_bytes
equal_bytes_iff [] [] = ground arith
equal_bytes_iff [] (y ∷ b) = ground arith
equal_bytes_iff (x ∷ a) [] = ground arith
equal_bytes_iff (x ∷ a) (y ∷ b) = ground (arith, equal_bytes_iff a b)

pub less_bytes_irrefl : (a : List ℕ) → less_bytes a a ≡ false
unfolding less_bytes
less_bytes_irrefl [] = refl
less_bytes_irrefl (x ∷ a) = ground (arith, less_bytes_irrefl a)

pub less_bytes_trans :
    (a b c : List ℕ) → less_bytes a b ≡ true → less_bytes b c ≡ true → less_bytes a c ≡ true
unfolding less_bytes
less_bytes_trans [] [] c p q = ground arith
less_bytes_trans [] (y ∷ b) [] p q = ground arith
less_bytes_trans [] (y ∷ b) (z ∷ c) p q = refl
less_bytes_trans (x ∷ a) [] c p q = ground arith
less_bytes_trans (x ∷ a) (y ∷ b) [] p q = ground arith
less_bytes_trans (x ∷ a) (y ∷ b) (z ∷ c) p q = ground (arith, less_bytes_trans a b c)

pub less_bytes_total : (a b : List ℕ) → (less_bytes a b ≡ true) ⊎ (a ≡ b) ⊎ (less_bytes b a ≡ true)
unfolding less_bytes
less_bytes_total [] [] = inr (inl refl)
less_bytes_total [] (y ∷ b) = inl refl
less_bytes_total (x ∷ a) [] = inr (inr refl)
less_bytes_total (x ∷ a) (y ∷ b) = ground (arith, less_bytes_total a b)

pub less_bytes_trichotomy :
    (a b : List ℕ)
    → ((less_bytes a b ≡ true) × (equal_bytes a b ≡ false) × (less_bytes b a ≡ false))
      ⊎ ((less_bytes a b ≡ false) × (equal_bytes a b ≡ true) × (less_bytes b a ≡ false))
      ⊎ ((less_bytes a b ≡ false) × (equal_bytes a b ≡ false) × (less_bytes b a ≡ true))
unfolding less_bytes equal_bytes
less_bytes_trichotomy [] [] = ground arith
less_bytes_trichotomy [] (y ∷ b) = ground arith
less_bytes_trichotomy (x ∷ a) [] = ground arith
less_bytes_trichotomy (x ∷ a) (y ∷ b) = ground (arith, less_bytes_trichotomy a b)
