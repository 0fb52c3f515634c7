-- ===== src/Http/Percent.antt =====
-- The percent-encoding of RFC 3986, as a description to compare url_encode and url_decode of
-- nstl/nstl/http_client.cpp with.
use nstl.Prelude.{
  ℕ, ◌+◌, ◌-◌, ◌*◌, ◌/◌, ◌%◌, ◌≤◌, ◌<◌, ◌≡◌, refl, ap, ◌∙◌, Bool, true, false, ◌&&◌, ◌||◌, List, [],
  ◌∷◌, ◌++◌, arith, ltb, leb, ◌==◌, if◌then◌else◌, Bool-cases, inl, inr, length, All, c_string,
}

-- Letters, digits and `-._~` stand for themselves.
abbrev pub is_unreserved : ℕ → Bool
is_unreserved c =
    (leb b'a' c && leb c b'z')
    || (leb b'A' c && leb c b'Z')
    || (leb b'0' c && leb c b'9')
    || c == b'-'
    || c == b'.'
    || c == b'_'
    || c == b'~'

abbrev pub hex_digit : ℕ → ℕ
hex_digit n = if ltb n 10 then b'0' + n else 55 + n

abbrev pub hex_value : ℕ → ℕ
hex_value d = if leb d b'9' then d - b'0' else if leb d b'F' then d - 55 else d - 87

abbrev pub is_hex : ℕ → Bool
is_hex d = (leb b'0' d && leb d b'9') || (leb b'A' d && leb d b'F') || (leb b'a' d && leb d b'f')

abbrev pub percent_byte : ℕ → List ℕ
percent_byte c =
    if is_unreserved c then c ∷ [] else b'%' ∷ hex_digit (c / 16) ∷ hex_digit (c % 16) ∷ []

unfoldable pub percent : List ℕ → List ℕ
percent [] = []
percent (c ∷ s) = percent_byte c ++ percent s

-- A percent sign with two hexadecimal digits behind it stands for a byte, and all else for itself.
unfoldable pub unpercent : List ℕ → List ℕ
unpercent [] = []
unpercent (c ∷ []) = c ∷ []
unpercent (c ∷ h ∷ []) = c ∷ h ∷ []
unpercent (c ∷ h ∷ l ∷ s) =
    let coded = (hex_value h * 16 + hex_value l) ∷ unpercent s in
    let literal = c ∷ unpercent (h ∷ l ∷ s) in
    if c == b'%' && (is_hex h && is_hex l) then coded else literal

unpercent_literal : (c : ℕ) (s : List ℕ) → (c == b'%') ≡ false → unpercent (c ∷ s) ≡ c ∷ unpercent s
unfolding unpercent
unpercent_literal c [] e = refl
unpercent_literal c (h ∷ []) e = refl
unpercent_literal c (h ∷ l ∷ s) e = simp e refl

hex_digit_lem : (n : ℕ) → n < 16 → (is_hex (hex_digit n) ≡ true) × (hex_value (hex_digit n) ≡ n)
hex_digit_lem n small = (ground arith, ground arith)

unpercent_coded :
    (c : ℕ) (s : List ℕ)
    → c < 256
    → unpercent (b'%' ∷ hex_digit (c / 16) ∷ hex_digit (c % 16) ∷ s) ≡ c ∷ unpercent s
unfolding unpercent
unpercent_coded c s byte =
    let (high, h) = hex_digit_lem (c / 16) (omega arith) in
    let (low, l) = hex_digit_lem (c % 16) (omega arith) in
    let joined : c / 16 * 16 + c % 16 ≡ c = omega arith in
    simp (high, low, h, l) (ap (◌∷ unpercent s) joined)

pub unpercent-percent : (s : List ℕ) → All (λ c. c < 256) s → unpercent (percent s) ≡ s
unfolding percent
unpercent-percent [] bytes = unfold unpercent in refl
unpercent-percent (c ∷ s) (byte, bytes) = elim (Bool-cases (is_unreserved c)) [
  | inl u ↦
      let apart : (c == b'%') ≡ false = ground (arith, u) in
      rw u (unpercent_literal c (percent s) apart ∙ ap (c ∷◌) (unpercent-percent s bytes))
  | inr u ↦ rw u (unpercent_coded c (percent s) byte ∙ ap (c ∷◌) (unpercent-percent s bytes))
]

c_string_byte : (c : ℕ) (s : List ℕ) → 0 < c → c_string s ≡ s → c_string (c ∷ s) ≡ c ∷ s
unfolding c_string
c_string_byte c s some_byte e = ground arith

pub c_string-percent : (s : List ℕ) → c_string (percent s) ≡ percent s
unfolding percent
c_string-percent [] = unfold c_string in refl
c_string-percent (c ∷ s) = elim (Bool-cases (is_unreserved c)) [
  | inl u ↦ rw u (c_string_byte c (percent s) (ground (arith, u)) (c_string-percent s))
  | inr u ↦ rw u (
      c_string_byte b'%' (hex_digit (c / 16) ∷ hex_digit (c % 16) ∷ percent s) (omega arith) (
        c_string_byte (hex_digit (c / 16)) (hex_digit (c % 16) ∷ percent s) (ground arith)
          (c_string_byte (hex_digit (c % 16)) (percent s) (ground arith) (c_string-percent s))))
]

pub length-percent :
    (s : List ℕ) → (length s ≤ length (percent s)) × (length (percent s) ≤ 3 * length s)
unfolding percent
length-percent [] = (omega arith, omega arith)
length-percent (c ∷ s) =
    let (least, most) = length-percent s in
    elim (Bool-cases (is_unreserved c)) [
      | inl u ↦ rw u (omega arith, omega arith)
      | inr u ↦ rw u (omega arith, omega arith)
    ]
