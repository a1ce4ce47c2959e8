-- ===== src/HeaderTransforms/Prefixes.antt =====
-- utils/headers.ts: the prefixes that keep the browser from its own authentication.
use testcafe_hammerhead.Common.{
  ◌≡◌, refl, Bool, true, ◌||◌, [], ◌∷◌, ◌++◌, if◌then◌else◌, Option, none, some,
}
use testcafe_hammerhead.Common.Chars.{Text, codes, to_lower, text_eq, starts_with, includes}

abbrev pub authenticate_prefix : Text
authenticate_prefix = codes "~~~TestCafe added this prefix to hide the authentication dialog box~~~"

abbrev pub authorization_prefix : Text
authorization_prefix = codes "~~~TestCafe added this prefix to control the authorization flow~~~"

abbrev pub skip_text : Text → Text → Text
skip_text [] s = s
skip_text (p ∷ part) [] = []
skip_text (p ∷ part) (c ∷ s) = skip_text part s

-- `replace(part, '')`: the first occurrence is taken out.
unfoldable pub remove_first : Text → Text → Text
remove_first part [] = []
remove_first part (c ∷ s) =
    let rest = remove_first part s in
    if starts_with (c ∷ s) part then skip_text part (c ∷ s) else c ∷ rest

unfoldable pub add_authenticate_prefix : Text → Text
add_authenticate_prefix value = authenticate_prefix ++ value

unfoldable pub has_authenticate_prefix : Text → Bool
has_authenticate_prefix value = includes value authenticate_prefix

unfoldable pub remove_authenticate_prefix : Text → Text
unfolding remove_first
remove_authenticate_prefix value = remove_first authenticate_prefix value

unfoldable pub is_authenticate_header : Text → Bool
is_authenticate_header header_name =
    text_eq (to_lower header_name) (codes "www-authenticate")
    || text_eq (to_lower header_name) (codes "proxy-authenticate")

unfoldable pub add_authorization_prefix : Text → Text
add_authorization_prefix value = authorization_prefix ++ value

unfoldable pub has_authorization_prefix : Text → Bool
has_authorization_prefix value = includes value authorization_prefix

unfoldable pub remove_authorization_prefix : Text → Text
unfolding remove_first
remove_authorization_prefix value = remove_first authorization_prefix value

unfoldable pub is_authorization_header : Text → Bool
is_authorization_header header_name =
    text_eq (to_lower header_name) (codes "authorization")
    || text_eq (to_lower header_name) (codes "proxy-authorization")

-- `transformAuthorizationHeader`
unfoldable pub transform_authorization_header : Text → Option Text
unfolding has_authorization_prefix remove_authorization_prefix
transform_authorization_header src =
    if has_authorization_prefix src then some (remove_authorization_prefix src) else none

-- What a script of the page gives as authorization, with the prefix, is sent without it; so is the
-- authentication that a site asks for.
pub prefixes_removed :
    (value : Text)
    → (transform_authorization_header (add_authorization_prefix value) ≡ some value)
      × (has_authenticate_prefix (add_authenticate_prefix value) ≡ true)
      × (remove_authenticate_prefix (add_authenticate_prefix value) ≡ value)
unfolding transform_authorization_header add_authorization_prefix add_authenticate_prefix
    has_authorization_prefix has_authenticate_prefix remove_authenticate_prefix
    remove_authorization_prefix remove_first
prefixes_removed value = (refl, refl, refl)
