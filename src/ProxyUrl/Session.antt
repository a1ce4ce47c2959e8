-- ===== src/ProxyUrl/Session.antt =====
-- The session and the window of a descriptor, and the values behind them.
use testcafe_hammerhead.Common.{◌≡◌, refl, ◌∙◌, ℕ, false, ◌||◌, List, [], ◌∷◌, ◌++◌, arith, All}
use testcafe_hammerhead.Common.Chars.{Text, is_empty, split_on}
use testcafe_hammerhead.ProxyUrl.{
  has_code, parse_resource_type, UriCodec, join, optional, absent, RequestDescriptor, parsed,
  with_resource_type, with_resource_data, new_descriptor, parse_values, parse_request_descriptor,
}
use testcafe_hammerhead.ProxyUrl.Split.{split_on-join}

-- A session and a window, whose texts have none of the separators.
pub record IsSession (session window : Text) : Type 0 where
  pub session_given : is_empty session ≡ false
  pub session_plain : (has_code b'!' session ≡ false) × (has_code b'*' session ≡ false)
  pub window_plain : (has_code b'!' window ≡ false) × (has_code b'*' window ≡ false)

abbrev pub IsPlain : Text → Type 0
IsPlain s = has_code b'!' s ≡ false

has_code-append : (c : ℕ) (s t : Text) → has_code c (s ++ t) ≡ (has_code c s || has_code c t)
has_code-append c [] t = refl
has_code-append c (d ∷ s) t = rw (has_code-append c s t) (ground arith)

-- The session and the window as one text.
unfoldable pub ids_text : Text → Text → Text
unfolding join
ids_text session window = join b'*' (session ∷ optional window)

ids_text-IsPlain : (s w : Text) → IsSession s w → IsPlain (ids_text s w)
unfolding ids_text join
ids_text-IsPlain s [] h = h.session_plain.0
ids_text-IsPlain s (c ∷ w) h =
    has_code-append b'!' s (b'*' ∷ c ∷ w) ∙ rw h.session_plain.0 h.window_plain.0

is_empty-ids_text : (s w : Text) → IsSession s w → is_empty (ids_text s w) ≡ false
unfolding ids_text join
is_empty-ids_text [] w h = cc h.session_given
is_empty-ids_text (c ∷ s) [] h = refl
is_empty-ids_text (c ∷ s) (d ∷ w) h = refl

-- The descriptor of a type, before the values behind it are read.
abbrev pub typed : Text → Text → Text → RequestDescriptor
typed s w t = record {
  session_id = s;
  window_id = w;
  resource_type = t;
  charset = [];
  credentials = absent;
  req_origin = [];
}

new_descriptor-ids_text :
    (s w t : Text) → IsSession s w → new_descriptor (split_on b'*' (ids_text s w)) t ≡ typed s w t
unfolding ids_text
new_descriptor-ids_text s [] t h = rw (split_on-join b'*' s [] (h.session_plain.1, tt)) refl
new_descriptor-ids_text s (c ∷ w) t h =
    rw (split_on-join b'*' s ((c ∷ w) ∷ []) (h.session_plain.1, (h.window_plain.1, tt))) refl

-- A descriptor of these values is taken apart into them.
pub parse_request_descriptor-join :
    (codec : UriCodec) (s w t : Text) (values : List Text)
    → IsSession s w
    → IsPlain t
    → All IsPlain values
    → parse_request_descriptor codec (join b'!' (ids_text s w ∷ t ∷ values))
      ≡ with_resource_type codec t values (typed s w t)
unfolding parse_request_descriptor parse_values
parse_request_descriptor-join codec s w t values h p q =
    rw
      (
        split_on-join b'!' (ids_text s w) (t ∷ values) (ids_text-IsPlain s w h, (p, q)),
        is_empty-ids_text s w h,
        new_descriptor-ids_text s w t h,
      )
      refl

-- The same with a type and values behind it
pub parse_request_descriptor-values :
    (codec : UriCodec) (s w t first : Text) (rest : List Text)
    → IsSession s w
    → IsPlain t
    → is_empty t ≡ false
    → All IsPlain (first ∷ rest)
    → parse_request_descriptor codec (join b'!' (ids_text s w ∷ t ∷ first ∷ rest))
      ≡ with_resource_data codec (parse_resource_type t) first rest (typed s w t)
unfolding with_resource_type
parse_request_descriptor-values codec s w t first rest h p n q =
    parse_request_descriptor-join codec s w t (first ∷ rest) h p q ∙ rw n refl

-- A descriptor of a session alone
pub parse_request_descriptor-ids_text :
    (codec : UriCodec) (s w : Text)
    → IsSession s w
    → parse_request_descriptor codec (ids_text s w) ≡ parsed (typed s w [])
unfolding parse_request_descriptor parse_values with_resource_type ids_text
parse_request_descriptor-ids_text codec s w h =
    rw
      (
        split_on-join b'!' (ids_text s w) [] (ids_text-IsPlain s w h, tt),
        is_empty-ids_text s w h,
        new_descriptor-ids_text s w [] h,
      )
      refl
