-- ===== src/ContentTypes.antt =====
-- utils/content-type.ts and utils/is-redirect-status-code.ts: what the headers say of a resource.
use testcafe_hammerhead.Common.{ℕ, Bool, ◌||◌, ◌==◌, List, [], ◌∷◌, any_of, map}
use testcafe_hammerhead.Common.Chars.{Text, codes, to_lower, includes, text_eq, is_empty}

abbrev pub page_mimes : List Text
page_mimes = map codes (
    "text/html" ∷ "text/xml" ∷ "application/xhtml+xml" ∷ "application/xml"
    ∷ "application/x-ms-application" ∷ [])

abbrev pub script_mimes : List Text
script_mimes = map codes (
    "application/ecmascript" ∷ "application/javascript" ∷ "application/x-ecmascript"
    ∷ "application/x-javascript" ∷ "text/ecmascript" ∷ "text/javascript" ∷ "text/javascript1.0"
    ∷ "text/javascript1.1" ∷ "text/javascript1.2" ∷ "text/javascript1.3" ∷ "text/javascript1.4"
    ∷ "text/javascript1.5" ∷ "text/jscript" ∷ "text/livescript" ∷ "text/x-ecmascript"
    ∷ "text/x-javascript" ∷ [])

unfoldable pub is_page : Text → Bool
is_page header = any_of (λ mime. includes (to_lower header) mime) page_mimes

unfoldable pub is_text_page : Text → Bool
is_text_page header = includes (to_lower header) (codes "text/plain") || is_empty header

unfoldable pub is_css_resource : Text → Text → Bool
is_css_resource content_type accept =
    includes (to_lower content_type) (codes "text/css")
    || includes (to_lower accept) (codes "text/css")

unfoldable pub is_script_resource : Text → Text → Bool
is_script_resource content_type accept =
    any_of (λ mime. includes (to_lower content_type) mime) script_mimes
    || any_of (text_eq (to_lower accept)) script_mimes

unfoldable pub is_manifest : Text → Bool
is_manifest content_type = includes (to_lower content_type) (codes "text/cache-manifest")

unfoldable pub is_redirect_status_code : ℕ → Bool
is_redirect_status_code code = any_of (λ c. c == code) (301 ∷ 302 ∷ 303 ∷ 307 ∷ 308 ∷ [])
