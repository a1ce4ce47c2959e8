-- ===== src/Charset/Sources.antt =====
-- What a sequence of sources leaves in a charset.
use testcafe_hammerhead.Common.{
  ℕ, ◌≤◌, ◌≡◌, inl, inr, refl, ap, Bool, true, false, not, ◌&&◌, ◌||◌, leb, ltb, Option, none, some,
  List, [], ◌∷◌, All, arith, if◌then◌else◌, Bool-cases, if-elim,
}
use testcafe_hammerhead.Common.Chars.{Text, is_empty}
use testcafe_hammerhead.Charset.Labels.{EncodingName, no_name, name, inherited, get_encoding_name}
use testcafe_hammerhead.Charset.Names.{
  text_eq_refl, text_eq_sound, has_semicolon, get_encoding_name_with_semicolon,
}
use testcafe_hammerhead.Charset.{
  Charset, CharsetPriority, url, meta, content_type, bom, rank, name_eq, is_named, set,
  charset_bom_list, find_bom, is_from_bom, from_bom, from_content_type, from_url, from_meta, Source,
  res_buf, content_type_header, charset_from_url, metas, from_source, from_sources, meta_loop,
  match_charset,
}

name_eq_refl : (n : EncodingName) → name_eq n n ≡ true
name_eq_refl no_name = refl
name_eq_refl (name a) = text_eq_refl a
name_eq_refl (inherited a) = text_eq_refl a

-- What a method of the object keeps: the priority does not fall, and the result says whether the
-- charset is another one.
record Kept (before : Charset) (after : Charset × Bool) : Type 0 where
  monotone : before.priority ≤ after.0.priority
  changed : after.1 ≡ not (name_eq before.charset after.0.charset)
  quiet : after.1 ≡ false → after.0 ≡ before

Kept-none : (c : Charset) → Kept c (c, false)
Kept-none c = record {
  monotone = omega arith;
  changed = rw (name_eq_refl c.charset) refl;
  quiet = λ e. refl;
}

Kept-if :
    {c : Charset} (b : Bool) (x y : Charset × Bool)
    → (b ≡ true → Kept c x)
    → (b ≡ false → Kept c y)
    → Kept c (if b then x else y)
Kept-if = if-elim (Kept _)

Kept-option :
    {c : Charset} (o : Option Text) (f : Text → Charset × Bool)
    → ((s : Text) → Kept c (f s))
    → Kept c (elim o [ none ↦ (c, false) | some s ↦ f s ])
Kept-option none f k = Kept-none _
Kept-option (some s) f k = k s

set-Kept : (n : EncodingName) (p : CharsetPriority) (c : Charset) → Kept c (set n p c)
unfolding set
set-Kept n p c =
    if-elim (Kept c) (is_named n && not (name_eq c.charset n) && leb c.priority (rank p))
      (record { charset = n; priority = rank p }, true) (c, false)
      (λ e. record {
        monotone = ground (arith, e);
        changed = ground (arith, e);
        quiet = λ f. ground arith;
      })
      (λ e. Kept-none c)

Kept-set_if :
    {c : Charset} (b : Bool) (n : EncodingName) (p : CharsetPriority)
    → Kept c (if b then set n p c else (c, false))
Kept-set_if true n p = set-Kept n p _
Kept-set_if false n p = Kept-none _

from_source-Kept : (s : Source) (c : Charset) → Kept c (from_source s c)
unfolding from_source from_bom from_content_type from_url from_meta
from_source-Kept (res_buf b) c =
    Kept-option (find_bom charset_bom_list b) _ (λ n. set-Kept (name n) bom c)
from_source-Kept (content_type_header h) c =
    Kept-if _ _ _
      (λ e. Kept-option (match_charset h) _ (λ n. set-Kept (get_encoding_name n) content_type c))
      (λ e. Kept-none c)
from_source-Kept (charset_from_url u) c =
    Kept-set_if (not (is_empty u) && leb c.priority (rank url)) (get_encoding_name u) url
from_source-Kept (metas []) c = Kept-none c
from_source-Kept (metas (m ∷ l)) c =
    Kept-set_if (ltb c.priority (rank meta))
      (get_encoding_name
        (meta_loop (m ∷ l) (record { need_pragma = true; charset_str = [] })).charset_str)
      meta

-- For every source and every object: the priority does not fall, and the result is true exactly
-- if the charset became another one; if it is false, nothing changed at all.
from_source-changed :
    (s : Source) (c : Charset)
    → (c.priority ≤ (from_source s c).0.priority)
      × ((from_source s c).1 ≡ not (name_eq c.charset (from_source s c).0.charset))
      × ((from_source s c).1 ≡ false → (from_source s c).0 ≡ c)
from_source-changed s c = let k = from_source-Kept s c in (k.monotone, k.changed, k.quiet)

-- A source that is not the beginning of the body.
abbrev pub IsDeclared : Source → Type 0
IsDeclared (res_buf b) = ⊥
IsDeclared _ = Unit

from_source-of_bom :
    (s : Source) (c : Charset) → IsDeclared s → is_from_bom c ≡ true → (from_source s c).0 ≡ c
unfolding from_source from_content_type from_url from_meta is_from_bom set
from_source-of_bom (res_buf b) c d h = absurd d
from_source-of_bom (content_type_header t) c d h = ground (arith, h)
from_source-of_bom (charset_from_url u) c d h = ground (arith, h)
from_source-of_bom (metas []) c d h = refl
from_source-of_bom (metas (m ∷ l)) c d h = ground (arith, h)

-- Once a charset comes from a byte order mark, no sequence of headers, URLs and `meta` tags
-- changes the object.
pub from_sources-of_bom :
    (sources : List Source) (c : Charset)
    → All IsDeclared sources
    → is_from_bom c ≡ true
    → from_sources sources c ≡ c
unfolding from_sources
from_sources-of_bom [] c d h = refl
from_sources-of_bom (s ∷ sources) c d h =
    let e = from_source-of_bom s c d.0 h in rw e (from_sources-of_bom sources c d.1 h)

name_eq_sound : (m n : EncodingName) → name_eq m n ≡ true → m ≡ n
name_eq_sound no_name no_name h = refl
name_eq_sound (name a) (name b) h = ap name (text_eq_sound a b h)
name_eq_sound (inherited a) (inherited b) h = ap inherited (text_eq_sound a b h)
name_eq_sound no_name (name b) h = ground arith
name_eq_sound no_name (inherited b) h = ground arith
name_eq_sound (name a) no_name h = ground arith
name_eq_sound (name a) (inherited b) h = ground arith
name_eq_sound (inherited a) no_name h = ground arith
name_eq_sound (inherited a) (name b) h = ground arith

set-of_bom :
    (encoding : Text) (c : Charset)
    → c.priority ≤ rank bom
    → ((set (name encoding) bom c).0.charset ≡ name encoding)
      × (is_from_bom (set (name encoding) bom c).0
          ≡ (is_from_bom c || not (name_eq c.charset (name encoding))))
unfolding set is_from_bom
set-of_bom encoding c p = ground (arith, p, name_eq_sound c.charset (name encoding))

-- Where a body begins with the mark of an encoding, and the priority is one of the enumeration:
-- afterwards the charset is that encoding. It counts as one from a mark if it did so before or if
-- the charset was another one; so it does not where a header had named the same encoding.
pub from_bom-charset :
    (body : List ℕ) (encoding : Text) (c : Charset)
    → find_bom charset_bom_list body ≡ some encoding
    → c.priority ≤ rank bom
    → ((from_bom body c).0.charset ≡ name encoding)
      × (is_from_bom (from_bom body c).0
          ≡ (is_from_bom c || not (name_eq c.charset (name encoding))))
unfolding from_bom is_from_bom
from_bom-charset body encoding c h p = rw (from_bom, h) (set-of_bom encoding c p)

-- A Content-Type header in which another parameter follows the charset, so that the text that
-- CHARSET_RE takes has a semicolon, changes nothing.
pub from_content_type-trailing_parameter :
    (header value : Text) (c : Charset)
    → match_charset header ≡ some value
    → has_semicolon value ≡ true
    → from_content_type header c ≡ (c, false)
unfolding from_content_type set
from_content_type-trailing_parameter header value c h k =
    elim (Bool-cases (leb c.priority (rank content_type))) [
      | inl e ↦ rw (e, h, get_encoding_name_with_semicolon value k) refl
      | inr e ↦ rw e refl
    ]
