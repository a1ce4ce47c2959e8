-- ===== src/SameOrigin/Policy.antt =====
-- The checks against the rules for cross-origin requests.
use testcafe_hammerhead.Common.{
  clash, ◌≡◌, ◌≢◌, ◌↔◌, ◌⊎◌, inl, inr, refl, Bool, true, false, not, ◌&&◌, ◌||◌, Option, none, some,
  List, [], ◌∷◌, In, arith, if◌then◌else◌, ap,
}
use testcafe_hammerhead.Common.Chars.{Text, codes}
use testcafe_hammerhead.Charset.Names.{text_eq_refl, text_eq_sound}
use testcafe_hammerhead.ProxyUrl.{Credentials, include}
use testcafe_hammerhead.SameOrigin.{
  HeaderValue, no_header, one, several, CorsRequest, is_include, is_given, cast_array, lists,
  is_origin, lists_origin, credentials_allowed, wildcard_allowed, check, should_omit_credentials,
}

-- When a response may be read: it has the origin of the page; or the server allows all origins and
-- no credentials were asked for; or the server names the page's origin, and where credentials were
-- asked for, it allows them and allows nobody in general.
pub data IsReadable (r : CorsRequest) : Type 0 where
  own_origin : r.req_origin ≡ some r.domain → IsReadable r
  any_origin :
      r.credentials ≢ some include
      → In (codes "*") (cast_array r.allow_origin)
      → r.allow_origin ≢ one []
      → IsReadable r
  named_origin :
      (o : Text)
      → r.req_origin ≡ some o
      → In o (cast_array r.allow_origin)
      → r.allow_origin ≢ one []
      → (r.credentials ≡ some include
          → (credentials_allowed r ≡ true) × (In (codes "*") (cast_array r.allow_origin) → ⊥))
      → IsReadable r

lists_iff : (l : List Text) (t : Text) → (lists l t ≡ true) ↔ In t l
lists_iff [] t = ground arith
lists_iff (a ∷ l) t = ground (arith, lists_iff l t, text_eq_sound t a, text_eq_refl t)

pub is_origin_iff : (o : Option Text) (d : Text) → (is_origin o d ≡ true) ↔ (o ≡ some d)
is_origin_iff none d = ground arith
is_origin_iff (some o) d = ground (arith, text_eq_sound o d, text_eq_refl o)

is_include_iff : (c : Option Credentials) → (is_include c ≡ true) ↔ (c ≡ some include)
is_include_iff c = ground arith

lists_origin_sound :
    (l : List Text) (o : Option Text) → lists_origin l o ≡ true → (t : Text) × (o ≡ some t) × In t l
lists_origin_sound l none h = ground arith
lists_origin_sound l (some o) h = (o, refl, (lists_iff l o).0 h)

lists_origin_of :
    (l : List Text) (o : Option Text) (t : Text) → o ≡ some t → In t l → lists_origin l o ≡ true
lists_origin_of l o t e m = rw e ((lists_iff l t).1 m)

-- A header in which something stands is there.
is_given_of : (h : HeaderValue) (t : Text) → In t (cast_array h) → h ≢ one [] → is_given h ≡ true
is_given_of no_header t m n = absurd m
is_given_of (one []) t m n = absurd (n refl)
is_given_of (one (c ∷ s)) t m n = refl
is_given_of (several l) t m n = refl

is_given_sound : (h : HeaderValue) → is_given h ≡ true → h ≢ one []
is_given_sound h g e = cc (ap is_given e)

refuted : (b : Bool) → (b ≡ true → ⊥) → b ≡ false
refuted b n = ground arith

-- The decisions of `check` on truth values.
decisions :
    (d g i c w l : Bool)
    → (if d then true else if not g then false else if i && (not c || w) then false else w || l)
      ≡ true
    → (d ≡ true)
      ⊎ ((g ≡ true)
          × (((i ≡ false) × (w ≡ true)) ⊎ ((l ≡ true) × (i ≡ true → (c ≡ true) × (w ≡ false)))))
decisions d g i c w l h = ground arith

decisions_of_any :
    (d g i c w l : Bool)
    → g ≡ true
    → i ≡ false
    → w ≡ true
    → (if d then true else if not g then false else if i && (not c || w) then false else w || l)
      ≡ true
decisions_of_any d g i c w l x y z = ground arith

decisions_of_named :
    (d g i c w l : Bool)
    → g ≡ true
    → l ≡ true
    → (i ≡ true → (c ≡ true) × (w ≡ false))
    → (if d then true else if not g then false else if i && (not c || w) then false else w || l)
      ≡ true
decisions_of_named d g i c w l x y k = ground arith

module _ (r : CorsRequest) where
  abbrev allowed : List Text
  allowed = cast_array r.allow_origin

  abbrev is_star_listed : (wildcard_allowed r ≡ true) ↔ In (codes "*") allowed
  is_star_listed = lists_iff allowed (codes "*")

  check_sound : check r ≡ true → IsReadable r
  unfolding check
  check_sound h =
      elim (decisions (is_origin r.req_origin r.domain) (is_given r.allow_origin)
        (is_include r.credentials) (credentials_allowed r) (wildcard_allowed r)
        (lists_origin allowed r.req_origin) h) [
          | inl d ↦ own_origin ((is_origin_iff r.req_origin r.domain).0 d)
          | inr (g, inl (i, w)) ↦
              any_origin
                (λ e. clash (is_include r.credentials) ((is_include_iff r.credentials).1 e) i)
                (is_star_listed.0 w) (is_given_sound r.allow_origin g)
          | inr (g, inr (o, k)) ↦
              let (t, e, m) = lists_origin_sound allowed r.req_origin o in
              named_origin t e m (is_given_sound r.allow_origin g) (λ x.
                let (c, w) = k ((is_include_iff r.credentials).1 x) in
                (c, λ star. clash (wildcard_allowed r) (is_star_listed.1 star) w))
        ]

  check_of : IsReadable r → check r ≡ true
  unfolding check
  check_of (own_origin e) = rw ((is_origin_iff r.req_origin r.domain).1 e) refl
  check_of (any_origin n star given) =
      decisions_of_any (is_origin r.req_origin r.domain) (is_given r.allow_origin)
        (is_include r.credentials) (credentials_allowed r) (wildcard_allowed r)
        (lists_origin allowed r.req_origin) (is_given_of r.allow_origin (codes "*") star given)
        (refuted (is_include r.credentials) (λ i. n ((is_include_iff r.credentials).0 i)))
        (is_star_listed.1 star)
  check_of (named_origin o e m given k) =
      decisions_of_named (is_origin r.req_origin r.domain) (is_given r.allow_origin)
        (is_include r.credentials) (credentials_allowed r) (wildcard_allowed r)
        (lists_origin allowed r.req_origin) (is_given_of r.allow_origin o m given)
        (lists_origin_of allowed r.req_origin o e m)
        (λ i.
          let (c, star) = k ((is_include_iff r.credentials).0 i) in
          (c, refuted (wildcard_allowed r) (λ w. star (is_star_listed.0 w))))

-- For every request, the check passes exactly if one of these holds: the response has the origin of
-- the page; the server lists `*` and no credentials were asked for; the server lists the page's
-- origin and, where credentials were asked for, allows them and does not list `*`. A header that is
-- an empty text counts as absent.
pub check_iff : (r : CorsRequest) → (check r ≡ true) ↔ IsReadable r
check_iff r = (check_sound r, check_of r)

-- A request of another origin whose response may be read by the check, although credentials were
-- asked for, does not go without credentials, and the server allows them for its very origin.
check-credentials :
    (r : CorsRequest)
    → check r ≡ true
    → r.credentials ≡ some include
    → r.req_origin ≢ some r.domain
    → (should_omit_credentials r ≡ false)
      × (credentials_allowed r ≡ true)
      × (lists_origin (cast_array r.allow_origin) r.req_origin ≡ true)
unfolding should_omit_credentials
check-credentials r h c n = elim (check_sound r h) [
  | own_origin e ↦ absurd (n e)
  | any_origin x star given ↦ absurd (x c)
  | named_origin o e m given k ↦
      (rw c refl, (k c).0, lists_origin_of (cast_array r.allow_origin) r.req_origin o e m)
]
