-- ===== src/Net/Parse/Digits.antt =====
-- Prefix lengths in text: what `parse_mask` makes of digits, and of a text that holds another
-- character.
use nstl.Prelude.{
  ℕ, suc, ◌*◌, ◌≤◌, ◌<◌, ◌≡◌, refl, ap, true, false, List, [], ◌∷◌, ◌++◌, arith, length, take,
  take_of_ge, All,
}
use nstl.Net.Inet.{is_digit}
use nstl.Net.Parse.{digit_count, digit_value, parse_mask, invalid_mask}

digit_count-All : (s : List ℕ) → All (λ c. is_digit c ≡ true) s → digit_count s ≡ length s
unfolding digit_count
digit_count-All [] h = refl
digit_count-All (c ∷ s) (hc, hs) = rw hc (ap suc (digit_count-All s hs))

-- A non-empty text of digits whose value is a possible prefix length is read as that value.
pub parse_mask_digits :
    (ip_size : ℕ) (s : List ℕ)
    → 0 < length s
    → All (λ c. is_digit c ≡ true) s
    → digit_value 0 s ≤ ip_size * 8
    → ip_size * 8 ≤ 255
    → parse_mask ip_size s ≡ digit_value 0 s
unfolding parse_mask
parse_mask_digits ip_size s pos h fits small =
    let n = digit_count-All s h in
    let whole = take_of_ge (length s) s (omega arith) in
    ground (arith, n, ap (digit_value 0) whole, ap (λ k. take k s) n)

digit_count_stops :
    (p q : List ℕ) (c : ℕ) → is_digit c ≡ false → digit_count (p ++ c ∷ q) < length (p ++ c ∷ q)
unfolding digit_count
digit_count_stops [] q c h = rw h (omega arith)
digit_count_stops (x ∷ p) q c h = ground (arith, digit_count_stops p q c h)

pub parse_mask_text :
    (ip_size : ℕ) (p q : List ℕ) (c : ℕ)
    → is_digit c ≡ false
    → parse_mask ip_size (p ++ c ∷ q) ≡ invalid_mask
unfolding parse_mask
parse_mask_text ip_size p q c h = ground (arith, digit_count_stops p q c h)
