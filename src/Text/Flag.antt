-- ===== src/Text/Flag.antt =====
-- parse_view<bool> of nstl/nstl/parse.hpp.
use nstl.Prelude.{
  ◌↔◌, ℕ, ◌≡◌, refl, sym, ◌⊎◌, inl, inr, Bool, true, false, List, [], ◌∷◌, arith, length, ok, codes,
}
use mathlib.Core.Path.{subst}
use nstl.Text.{starts_with, parse_view_bool}

-- The texts that stand for a truth value.
abbrev pub Spells : List ℕ → Bool → Type 0
Spells s true = (s ≡ codes "1") ⊎ (s ≡ codes "true")
Spells s false = (s ≡ codes "0") ⊎ (s ≡ codes "false")

starts_whole : (s item : List ℕ) → starts_with s item ≡ true → length item ≡ length s → s ≡ item
unfolding starts_with
starts_whole [] [] h e = refl
starts_whole [] (p ∷ item) h e = absurd (omega arith)
starts_whole (c ∷ s) [] h e = absurd (omega arith)
starts_whole (c ∷ s) (p ∷ item) h e = ground (arith, starts_whole s item)

parse_view_bool_sound : (s : List ℕ) (b : Bool) → parse_view_bool s ≡ ok b → Spells s b
unfolding parse_view_bool
parse_view_bool_sound s true h =
    ground (arith, starts_whole s (codes "1"), starts_whole s (codes "true"))
parse_view_bool_sound s false h =
    ground (arith, starts_whole s (codes "0"), starts_whole s (codes "false"))

parse_view_bool_complete : (s : List ℕ) (b : Bool) → Spells s b → parse_view_bool s ≡ ok b
unfolding parse_view_bool
parse_view_bool_complete s true (inl e) = subst (λ t. parse_view_bool t ≡ ok true) (sym e) refl
parse_view_bool_complete s true (inr e) = subst (λ t. parse_view_bool t ≡ ok true) (sym e) refl
parse_view_bool_complete s false (inl e) = subst (λ t. parse_view_bool t ≡ ok false) (sym e) refl
parse_view_bool_complete s false (inr e) = subst (λ t. parse_view_bool t ≡ ok false) (sym e) refl

-- The parser returns a Boolean exactly if the text spells it, so that it refuses every other text.
pub parse_view_bool_iff : (s : List ℕ) (b : Bool) → (parse_view_bool s ≡ ok b) ↔ Spells s b
parse_view_bool_iff s b = (parse_view_bool_sound s b, parse_view_bool_complete s b)
