-- ===== src/ProxyUrl/Codec.antt =====
-- What the descriptor needs of `encodeURIComponent` and `decodeURIComponent`, which the JavaScript
-- engine has, on ASCII texts, and what follows for origins.
use testcafe_hammerhead.Common.{
  ◌≡◌, refl, ap, ◌∙◌, sym, inl, inr, ℕ, Bool, true, false, ◌&&◌, ◌||◌, ◌==◌, leb, ltb, some, [],
  ◌∷◌, ◌++◌, all_of, arith, Bool-cases,
}
use testcafe_hammerhead.Common.Chars.{Text, codes, is_empty, starts_with}
use testcafe_hammerhead.ProxyUrl.{
  has_code, UriCodec, make_short_origin, restore_short_origin, with_origin, RequestDescriptor,
  parsed,
}

abbrev pub is_ascii : ℕ → Bool
is_ascii c = ltb c 128

-- A letter, a digit, or one of - _ . ! ~ * ' ( ), which encoding leaves as it is.
abbrev pub is_unreserved : ℕ → Bool
is_unreserved c =
    (leb 48 c && leb c 57)
    || (leb 65 c && leb c 90)
    || (leb 97 c && leb c 122)
    || c == 45
    || c == 95
    || c == 46
    || c == 126
    || c == 33
    || (leb 39 c && leb c 42)

abbrev pub is_hex : ℕ → Bool
is_hex c = (leb 48 c && leb c 57) || (leb 65 c && leb c 70)

pub record IsUriCodec (codec : UriCodec) : Type 0 where
  pub encode_nil : codec.encode_uri_component [] ≡ []
  pub encode_unreserved :
      (c : ℕ) (s : Text)
      → is_unreserved c ≡ true
      → codec.encode_uri_component (c ∷ s) ≡ c ∷ codec.encode_uri_component s
  pub encode_reserved :
      (c : ℕ) (s : Text)
      → is_ascii c ≡ true
      → is_unreserved c ≡ false
      → (high : ℕ) × (low : ℕ) × (codec.encode_uri_component (c ∷ s)
          ≡ b'%' ∷ high ∷ low ∷ codec.encode_uri_component s)
        × (is_hex high ≡ true)
        × (is_hex low ≡ true)
  pub decode-encode :
      (a s : Text)
      → has_code b'%' a ≡ false
      → all_of is_ascii s ≡ true
      → codec.decode_uri_component (a ++ codec.encode_uri_component s) ≡ some (a ++ s)

-- An origin as the code passes it: `null`, or a scheme and a host.
pub data IsOrigin : Text → Type 0 where
  null_origin : IsOrigin (codes "null")
  https_origin :
      (host : Text)
      → all_of is_ascii host ≡ true
      → has_code b'!' host ≡ false
      → IsOrigin (codes "https://" ++ host)
  http_origin :
      (host : Text)
      → all_of is_ascii host ≡ true
      → has_code b'!' host ≡ false
      → is_empty host ≡ false
      → starts_with host (codes "s*") ≡ false
      → IsOrigin (codes "http://" ++ host)

hex_is_not_mark : (c : ℕ) → is_hex c ≡ true → (c == b'!') ≡ false
hex_is_not_mark c h = ground arith

module _ (codec : UriCodec) (laws : IsUriCodec codec) where
  pub has_code-encode :
      (s : Text)
      → all_of is_ascii s ≡ true
      → has_code b'!' s ≡ false
      → has_code b'!' (codec.encode_uri_component s) ≡ false
  has_code-encode [] a h = rw laws.encode_nil refl
  has_code-encode (c ∷ s) a h =
      let ih = has_code-encode s (ground (arith, a)) (ground (arith, h)) in
      elim (Bool-cases (is_unreserved c)) [
        | inl u ↦ rw (laws.encode_unreserved c s u) (ground (arith, ih, h))
        | inr r ↦
            let (high, low, e, hh, hl) = laws.encode_reserved c s (ground (arith, a)) r in
            rw (e, hex_is_not_mark high hh, hex_is_not_mark low hl) ih
      ]

  pub is_empty-encode :
      (s : Text) → all_of is_ascii s ≡ true → is_empty (codec.encode_uri_component s) ≡ is_empty s
  is_empty-encode [] a = rw laws.encode_nil refl
  is_empty-encode (c ∷ s) a = elim (Bool-cases (is_unreserved c)) [
    | inl u ↦ rw (laws.encode_unreserved c s u) refl
    | inr r ↦
        let (high, low, e, hh, hl) = laws.encode_reserved c s (ground (arith, a)) r in rw e refl
  ]

  -- A prefix of one unreserved character.
  starts_with-encode_one :
      (u : ℕ) (s : Text)
      → is_unreserved u ≡ true
      → all_of is_ascii s ≡ true
      → starts_with (codec.encode_uri_component s) (u ∷ []) ≡ starts_with s (u ∷ [])
  starts_with-encode_one u [] k a = rw laws.encode_nil refl
  starts_with-encode_one u (c ∷ s) k a = elim (Bool-cases (is_unreserved c)) [
    | inl v ↦ rw (laws.encode_unreserved c s v) refl
    | inr r ↦
        let (high, low, e, hh, hl) = laws.encode_reserved c s (ground (arith, a)) r in
        rw e (ground (arith, k, r))
  ]

  starts_with-encode :
      (s : Text)
      → all_of is_ascii s ≡ true
      → starts_with (codec.encode_uri_component s) (codes "s*") ≡ starts_with s (codes "s*")
  starts_with-encode [] a = rw laws.encode_nil refl
  starts_with-encode (c ∷ s) a = elim (Bool-cases (is_unreserved c)) [
    | inl v ↦
        rw (laws.encode_unreserved c s v, starts_with-encode_one b'*' s refl (ground (arith, a)))
          refl
    | inr r ↦
        let (high, low, e, hh, hl) = laws.encode_reserved c s (ground (arith, a)) r in
        rw e (ground (arith, r))
  ]

  decode_restored :
      (origin : Text)
      → IsOrigin origin
      → codec.decode_uri_component
          (restore_short_origin (codec.encode_uri_component (make_short_origin origin)))
        ≡ some origin
  unfolding make_short_origin restore_short_origin
  decode_restored _ null_origin = rw laws.encode_nil (
      ap (λ e. codec.decode_uri_component (codes "null" ++ e)) (sym laws.encode_nil)
      ∙ laws.decode-encode (codes "null") [] refl refl)
  decode_restored _ (https_origin host a m) =
      rw (laws.encode_unreserved b's' (b'*' ∷ host) refl, laws.encode_unreserved b'*' host refl)
        (laws.decode-encode (codes "https://") host refl a)
  decode_restored _ (http_origin host a m n p) =
      rw (restore_short_origin, is_empty-encode host a, n, starts_with-encode host a, p)
        (laws.decode-encode (codes "http://") host refl a)

  -- The origin that is written is the origin that is read.
  pub with_origin-encode :
      (origin : Text) (desc : RequestDescriptor)
      → IsOrigin origin
      → with_origin codec (codec.encode_uri_component (make_short_origin origin)) desc
        ≡ parsed (record desc { req_origin = origin })
  unfolding with_origin
  with_origin-encode origin desc o = rw (with_origin, decode_restored origin o) refl
