-- ===== src/ProxyUrl/Split.antt =====
-- Joining texts with a separator and splitting them again.
use testcafe_hammerhead.Common.{
  ◌≡◌, refl, ap, ◌∙◌, ℕ, true, false, ◌==◌, List, [], ◌∷◌, ◌++◌, arith, All,
}
use testcafe_hammerhead.Common.Chars.{Text, split_on}
use testcafe_hammerhead.ProxyUrl.{has_code, join}

has_code-head : (sep c : ℕ) (a : Text) → has_code sep (c ∷ a) ≡ false → (c == sep) ≡ false
has_code-head sep c a h = ground (arith, h)

has_code-tail : (sep c : ℕ) (a : Text) → has_code sep (c ∷ a) ≡ false → has_code sep a ≡ false
has_code-tail sep c a h = ground (arith, h)

split_on_of_none : (sep : ℕ) (a : Text) → has_code sep a ≡ false → split_on sep a ≡ a ∷ []
split_on_of_none sep [] h = refl
split_on_of_none sep (c ∷ a) h =
    rw (has_code-head sep c a h, split_on_of_none sep a (has_code-tail sep c a h)) refl

eq_refl : (a : ℕ) → (a == a) ≡ true
eq_refl a = ground arith

split_on-append :
    (sep : ℕ) (a rest : Text)
    → has_code sep a ≡ false
    → split_on sep (a ++ sep ∷ rest) ≡ a ∷ split_on sep rest
split_on-append sep [] rest h = rw (eq_refl sep) refl
split_on-append sep (c ∷ a) rest h =
    rw (has_code-head sep c a h, split_on-append sep a rest (has_code-tail sep c a h)) refl

-- Texts without the separator come back from the split of their join.
pub split_on-join :
    (sep : ℕ) (a : Text) (l : List Text)
    → All (λ s. has_code sep s ≡ false) (a ∷ l)
    → split_on sep (join sep (a ∷ l)) ≡ a ∷ l
unfolding join
split_on-join sep a [] h = split_on_of_none sep a h.0
split_on-join sep a (b ∷ l) h =
    split_on-append sep a (join sep (b ∷ l)) h.0 ∙ ap (λ r. a ∷ r) (split_on-join sep b l h.1)
