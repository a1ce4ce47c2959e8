-- ===== src/Charset/Known.antt =====
-- Which values a charset can have.
use testcafe_hammerhead.Common.{
  ℕ, ◌≡◌, refl, Bool, true, false, not, ◌&&◌, ◌||◌, leb, ltb, Option, none, some, List, [], ◌∷◌,
  any_of, arith, if◌then◌else◌, if-elim,
}
use testcafe_hammerhead.Common.Chars.{Text, to_lower, text_eq, is_empty}
use testcafe_hammerhead.Charset.Labels.{
  EncodingName, no_name, name, inherited, get_encoding_name, encoding_labels, find_encoding,
  lookup_table, own_or_inherited, is_inherited, trim,
}
use testcafe_hammerhead.Charset.Names.{text_eq_refl}
use testcafe_hammerhead.Charset.{
  Charset, CharsetPriority, url, meta, content_type, bom, rank, name_eq, is_named, set,
  default_charset, charset_bom_list, find_bom, from_bom, from_content_type, from_url, from_meta,
  Source, res_buf, content_type_header, charset_from_url, metas, from_source, from_sources,
  meta_loop, match_charset,
}

-- What a charset can be: the default, an encoding of the table or of a mark, or a value that the
-- table inherits.
abbrev pub is_known : EncodingName → Bool
is_known no_name = false
is_known (name n) =
    text_eq n default_charset
    || any_of (λ b. text_eq n b.0) charset_bom_list
    || any_of (λ r. text_eq n r.0) encoding_labels
is_known (inherited label) = is_inherited label

is_row : List (Text × List Text) → Option Text → Bool
is_row rows none = true
is_row rows (some e) = any_of (λ r. text_eq e r.0) rows

is_row-cons :
    (encoding : Text) (labels : List Text) (rows : List (Text × List Text)) (b : Bool)
    (o : Option Text)
    → is_row rows o ≡ true
    → is_row
        ((encoding, labels) ∷ rows)
        (elim o [ some e ↦ some e | none ↦ if b then some encoding else none ])
      ≡ true
unfolding is_row
is_row-cons encoding labels rows b (some e) h = ground (arith, h)
is_row-cons encoding labels rows true none h = rw (text_eq_refl encoding) refl
is_row-cons encoding labels rows false none h = refl

find_encoding-is_row :
    (rows : List (Text × List Text)) (label : Text) → is_row rows (find_encoding rows label) ≡ true
unfolding find_encoding is_row
find_encoding-is_row [] label = refl
find_encoding-is_row ((encoding, labels) ∷ rows) label =
    is_row-cons encoding labels rows (any_of (text_eq label) labels) (find_encoding rows label)
      (find_encoding-is_row rows label)

any_last : (a b c : Bool) → c ≡ true → (a || b || c) ≡ true
any_last a b c h = ground (arith, h)

inherited-is_known :
    (label : Text) (b : Bool)
    → is_inherited label ≡ b
    → is_named (if b then inherited label else no_name) ≡ true
    → is_known (if b then inherited label else no_name) ≡ true
inherited-is_known label true h n = h
inherited-is_known label false h n = ground arith

own_or_inherited-is_known :
    (label : Text) (o : Option Text)
    → is_row encoding_labels o ≡ true
    → is_named (own_or_inherited label o) ≡ true
    → is_known (own_or_inherited label o) ≡ true
unfolding is_row
own_or_inherited-is_known label (some e) h n =
    any_last (text_eq e default_charset) (any_of (λ b. text_eq e b.0) charset_bom_list) _ h
own_or_inherited-is_known label none h n = inherited-is_known label (is_inherited label) refl n

get_encoding_name-is_known :
    (label : Text)
    → is_named (get_encoding_name label) ≡ true
    → is_known (get_encoding_name label) ≡ true
unfolding get_encoding_name lookup_table
get_encoding_name-is_known [] n = ground arith
get_encoding_name-is_known (c ∷ s) n =
    own_or_inherited-is_known (trim (to_lower (c ∷ s)))
      (find_encoding encoding_labels (trim (to_lower (c ∷ s))))
      (find_encoding-is_row encoding_labels (trim (to_lower (c ∷ s)))) n

record Known (r : Charset × Bool) : Type 0 where
  value : is_known r.0.charset ≡ true

Known-set :
    (n : EncodingName) (p : CharsetPriority) (c : Charset)
    → (is_named n ≡ true → is_known n ≡ true)
    → is_known c.charset ≡ true
    → Known (set n p c)
unfolding set
Known-set n p c k h =
    if-elim Known (is_named n && not (name_eq c.charset n) && leb c.priority (rank p))
      (record { charset = n; priority = rank p }, true) (c, false)
      (λ e. record { value = k (ground (arith, e)) }) (λ e. record { value = h })

Known-set_label :
    (b : Bool) (label : Text) (p : CharsetPriority) (c : Charset)
    → is_known c.charset ≡ true
    → Known (if b then set (get_encoding_name label) p c else (c, false))
Known-set_label true label p c h =
    Known-set (get_encoding_name label) p c (get_encoding_name-is_known label) h
Known-set_label false label p c h = record { value = h }

Known-option :
    (c : Charset) (o : Option Text) (f : Text → Charset × Bool)
    → is_known c.charset ≡ true
    → ((s : Text) → o ≡ some s → Known (f s))
    → Known (elim o [ none ↦ (c, false) | some s ↦ f s ])
Known-option c none f h k = record { value = h }
Known-option c (some s) f h k = k s refl

find_bom-is_known :
    (list : List (Text × List ℕ)) (body : List ℕ) (e : Text)
    → find_bom list body ≡ some e
    → any_of (λ b. text_eq e b.0) list ≡ true
unfolding find_bom
find_bom-is_known [] body e h = ground arith
find_bom-is_known ((n, mark) ∷ list) body e h =
    let ih = find_bom-is_known list body e in ground (arith, ih, h, text_eq_refl e)

any_middle : (a b c : Bool) → b ≡ true → (a || b || c) ≡ true
any_middle a b c h = ground (arith, h)

from_source-Known : (s : Source) (c : Charset) → is_known c.charset ≡ true → Known (from_source s c)
unfolding from_source from_bom from_content_type from_url from_meta
from_source-Known (res_buf body) c h = Known-option c (find_bom charset_bom_list body) _ h (λ n e.
    Known-set (name n) bom c
      (λ x.
        any_middle (text_eq n default_charset) _ _ (find_bom-is_known charset_bom_list body n e))
      h)
from_source-Known (content_type_header t) c h =
    if-elim Known (leb c.priority (rank content_type)) _ (c, false)
      (λ e.
        Known-option c (match_charset t) (λ n. set (get_encoding_name n) content_type c) h
          (λ n e. Known-set_label true n content_type c h))
      (λ e. record { value = h })
from_source-Known (charset_from_url u) c h =
    Known-set_label (not (is_empty u) && leb c.priority (rank url)) u url c h
from_source-Known (metas []) c h = record { value = h }
from_source-Known (metas (m ∷ l)) c h =
    Known-set_label (ltb c.priority (rank meta))
      (meta_loop (m ∷ l) (record { need_pragma = true; charset_str = [] })).charset_str meta c h

-- Whatever sources an object is given, if its charset was known, it is known after them: the
-- default, an encoding of the table, an encoding of a mark, or a value that the table inherits.
pub from_sources-is_known :
    (sources : List Source) (c : Charset)
    → is_known c.charset ≡ true
    → is_known (from_sources sources c).charset ≡ true
unfolding from_sources
from_sources-is_known [] c h = h
from_sources-is_known (s ∷ sources) c h =
    from_sources-is_known sources (from_source s c).0 (from_source-Known s c h).value
