-- ===== src/ProxyUrl/ResourceTypes.antt =====
-- The type of a resource and its text.
use testcafe_hammerhead.Common.{
  ◌≡◌, refl, ◌∙◌, ℕ, Bool, true, false, ◌&&◌, ◌==◌, List, [], ◌∷◌, any_of, arith,
}
use testcafe_hammerhead.Common.Chars.{Text}
use testcafe_hammerhead.ProxyUrl.{
  ResourceType, parse_resource_type, get_resource_type_string, set_flags_text, flags, has_code,
}

-- A flag stands in the text if it is set in the list.
abbrev is_set : ℕ → List (Bool × ℕ) → Bool
is_set flag l = any_of (λ p. p.0 && p.1 == flag) l

has_code-set_flags_text :
    (flag : ℕ) (l : List (Bool × ℕ)) → has_code flag (set_flags_text l) ≡ is_set flag l
unfolding set_flags_text
has_code-set_flags_text flag [] = refl
has_code-set_flags_text flag ((true, f) ∷ l) = rw (has_code-set_flags_text flag l) refl
has_code-set_flags_text flag ((false, f) ∷ l) = has_code-set_flags_text flag l

-- The nine tests of a text give the nine fields.
parse_resource_type-fields :
    (s : Text) (t : ResourceType)
    → has_code b'i' s ≡ t.is_iframe
    → has_code b'f' s ≡ t.is_form
    → has_code b's' s ≡ t.is_script
    → has_code b'e' s ≡ t.is_event_source
    → has_code b'h' s ≡ t.is_html_import
    → has_code b'w' s ≡ t.is_web_socket
    → has_code b'c' s ≡ t.is_service_worker
    → has_code b'a' s ≡ t.is_ajax
    → has_code b'o' s ≡ t.is_object
    → parse_resource_type s ≡ t
unfolding parse_resource_type
parse_resource_type-fields s t e0 e1 e2 e3 e4 e5 e6 e7 e8 =
    rw (e0, e1, e2, e3, e4, e5, e6, e7, e8) refl

flag_is_set :
    (flag : ℕ) (t : ResourceType) (b : Bool)
    → is_set flag (flags t) ≡ b
    → has_code flag (get_resource_type_string t) ≡ b
unfolding get_resource_type_string
flag_is_set flag t b h = has_code-set_flags_text flag (flags t) ∙ h

-- The type that is read from a text is the type that the text was made of.
parse_resource_type-get_resource_type_string :
    (t : ResourceType) → parse_resource_type (get_resource_type_string t) ≡ t
parse_resource_type-get_resource_type_string t =
    parse_resource_type-fields (get_resource_type_string t) t
      (flag_is_set b'i' t t.is_iframe (ground arith)) (flag_is_set b'f' t t.is_form (ground arith))
      (flag_is_set b's' t t.is_script (ground arith))
      (flag_is_set b'e' t t.is_event_source (ground arith))
      (flag_is_set b'h' t t.is_html_import (ground arith))
      (flag_is_set b'w' t t.is_web_socket (ground arith))
      (flag_is_set b'c' t t.is_service_worker (ground arith))
      (flag_is_set b'a' t t.is_ajax (ground arith)) (flag_is_set b'o' t t.is_object (ground arith))
