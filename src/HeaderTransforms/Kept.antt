-- ===== src/HeaderTransforms/Kept.antt =====
-- No header is lost when names get the case of the browser.
use testcafe_hammerhead.Common.{
  ◌≡◌, refl, ap, sym, ◌∙◌, ◌↔◌, Bool, true, false, ◌&&◌, Option, none, some, List, [], ◌∷◌, arith,
  if◌then◌else◌, if-elim, clash, Bool-cases, ◌⊎◌, inl, inr, In,
}
use mathlib.Core.Path.{subst, subst⁻¹}
use testcafe_hammerhead.Common.Chars.{Text, codes, to_lower, text_eq}
use testcafe_hammerhead.Charset.Names.{text_eq_refl, text_eq_sound}
use testcafe_hammerhead.HeaderTransforms.{
  get, set, assign, mark_used, has_name, Cased, use_name, transform_origin_headers, is_there,
  force_case, calculate_forced_headers_case, add_service_headers, names_of,
  transform_headers_case_to_raw,
}

pub text_eq_iff : (s t : Text) → (text_eq s t ≡ true) ↔ (s ≡ t)
text_eq_iff s t = (text_eq_sound s t, λ e. ap (text_eq s) (sym e) ∙ text_eq_refl s)

module _ {V : Type 0} where
  -- A value that is set is got, and other names keep theirs.
  pub get-set :
      (name other : Text) (value : V) (l : List (Text × V))
      → get other (set name value l) ≡ (if text_eq name other then some value else get other l)
  get-set name other value [] = refl
  get-set name other value ((key, old) ∷ l) =
      let ih = get-set name other value l in
      ground (arith, ih, text_eq_iff key name, text_eq_iff name other, text_eq_iff key other)

  -- A header has a name that is its own in lower case, with its value.
  abbrev Kept : List (Text × V) → Text → List (Text × V) → Type 0
  Kept headers name processed =
      (raw : Text) × (to_lower raw ≡ name) × (get raw processed ≡ get name headers)

  assign-Kept :
      (headers processed : List (Text × V)) (raw n name : Text) (o : Option V)
      → get n headers ≡ o
      → (is_there o ≡ true → to_lower raw ≡ n)
      → Kept headers name processed
      → Kept headers name (assign raw o processed)
  assign-Kept headers processed raw n name none e low k = k
  assign-Kept headers processed raw n name (some v) e low (r, same, value) = (
    r,
    same,
    get-set raw r v processed
        ∙ if-elim (λ x. x ≡ get name headers) (text_eq raw r) (some v) (get r processed)
            (λ t.
              sym e
              ∙ ap (λ k. get k headers)
                  (sym (low refl) ∙ ap to_lower (text_eq_sound raw r t) ∙ same))
            (λ f. value),
  )

  assign-new :
      (headers processed : List (Text × V)) (raw n : Text) (o : Option V)
      → get n headers ≡ o
      → is_there o ≡ true
      → (is_there o ≡ true → to_lower raw ≡ n)
      → Kept headers n (assign raw o processed)
  assign-new headers processed raw n none e p low = cc
  assign-new headers processed raw n (some v) e p low = (
    raw,
    low p,
    get-set raw raw v processed
        ∙ if-elim (λ x. x ≡ get n headers) (text_eq raw raw) (some v) (get raw processed)
            (λ t. sym e) (λ f. absurd (clash (text_eq raw raw) (text_eq_refl raw) f)),
  )

In-mark_used :
    (name other : Text) (names : List (Option Text))
    → In (some other) names
    → (other ≡ name) ⊎ In (some other) (mark_used name names)
In-mark_used name other [] m = absurd m
In-mark_used name other (none ∷ names) (inl e) = absurd cc
In-mark_used name other (none ∷ names) (inr m) = elim (In-mark_used name other names m) [
  | inl e ↦ inl e
  | inr x ↦ inr (inr x)
]
In-mark_used name other (some first ∷ names) (inl e) =
    if-elim (λ l. (other ≡ name) ⊎ In (some other) l) (text_eq first name) _ _
      (λ t. let same = text_eq_sound first name t in inl cc) (λ f. inr (inl e))
In-mark_used name other (some first ∷ names) (inr m) =
    if-elim (λ l. (other ≡ name) ⊎ In (some other) l) (text_eq first name) _ _ (λ t. inr (inr m))
      (λ f. elim (In-mark_used name other names m) [ inl e ↦ inl e | inr x ↦ inr (inr x) ])

module _ {V : Type 0} (headers : List (Text × V)) where
  -- Kept already, or among the names that are left.
  abbrev Due : Cased V → Type 0
  Due c =
      (name : Text)
      → is_there (get name headers) ≡ true
      → Kept headers name c.processed ⊎ In (some name) c.names

  use_name-Due :
      (raw n : Text) (c : Cased V) → to_lower raw ≡ n → Due c → Due (use_name raw n headers c)
  use_name-Due raw n c low due name p = elim (due name p) [
    | inl k ↦ inl (assign-Kept headers c.processed raw n name (get n headers) refl (λ x. low) k)
    | inr m ↦ elim (In-mark_used n name c.names m) [
      | inl e ↦ inl (
          rw e
            (assign-new headers c.processed raw n (get n headers) refl (rw (sym e) p) (λ x. low)))
      | inr x ↦ inr x
    ]
  ]

  use_if_there-Due :
      (b : Bool) (raw n : Text) (c : Cased V)
      → to_lower raw ≡ n
      → Due c
      → Due (if b then use_name raw n headers c else c)
  use_if_there-Due true raw n c low due = use_name-Due raw n c low due
  use_if_there-Due false raw n c low due = due

  transform_origin_headers-Due :
      (raw_headers : List Text) (c : Cased V)
      → Due c
      → Due (transform_origin_headers headers raw_headers c)
  unfolding transform_origin_headers
  transform_origin_headers-Due [] c due = due
  transform_origin_headers-Due (raw ∷ []) c due =
      use_if_there-Due (has_name (to_lower raw) c.names) raw (to_lower raw) c refl due
  transform_origin_headers-Due (raw ∷ value ∷ rest) c due =
      transform_origin_headers-Due rest _
        (use_if_there-Due (has_name (to_lower raw) c.names) raw (to_lower raw) c refl due)

  calculate_forced_headers_case-Due :
      (c : Cased V) → Due c → Due (calculate_forced_headers_case headers c)
  unfolding calculate_forced_headers_case
  calculate_forced_headers_case-Due c due =
      let upper = is_there (get (codes "Referer") c.processed) in
      let cookie = upper && is_there (get (codes "cookie") headers) in
      use_if_there-Due (upper && is_there (get (codes "origin") headers)) (codes "Origin")
        (codes "origin") (force_case (codes "cookie") (codes "Cookie") upper headers c) refl
        (use_if_there-Due cookie (codes "Cookie") (codes "cookie") c refl due)

  module _ (lower : (name : Text) → is_there (get name headers) ≡ true → to_lower name ≡ name) where
    add_service_headers-Kept :
        (names : List (Option Text)) (processed : List (Text × V)) (name : Text)
        → is_there (get name headers) ≡ true
        → Kept headers name processed ⊎ In (some name) names
        → Kept headers name (add_service_headers headers names processed)
    unfolding add_service_headers
    add_service_headers-Kept [] processed name p (inl k) = k
    add_service_headers-Kept [] processed name p (inr m) = absurd m
    add_service_headers-Kept (none ∷ names) processed name p (inl k) =
        add_service_headers-Kept names processed name p (inl k)
    add_service_headers-Kept (none ∷ names) processed name p (inr (inl e)) = absurd cc
    add_service_headers-Kept (none ∷ names) processed name p (inr (inr m)) =
        add_service_headers-Kept names processed name p (inr m)
    add_service_headers-Kept (some n ∷ names) processed name p (inl k) =
        add_service_headers-Kept names (assign n (get n headers) processed) name p
          (inl (assign-Kept headers processed n n name (get n headers) refl (lower n) k))
    add_service_headers-Kept (some n ∷ names) processed name p (inr (inl e)) =
        let same : name ≡ n = cc in
        add_service_headers-Kept names (assign n (get n headers) processed) name p (
          inl (
            subst⁻¹ (λ m. Kept headers m (assign n (get n headers) processed)) same
              (assign-new headers processed n n (get n headers) refl
                (subst (λ m. is_there (get m headers) ≡ true) same p) (lower n))))
    add_service_headers-Kept (some n ∷ names) processed name p (inr (inr m)) =
        add_service_headers-Kept names (assign n (get n headers) processed) name p (inr m)

    In-names_of :
        (l : List (Text × V)) (name : Text)
        → is_there (get name l) ≡ true
        → In (some name) (names_of l)
    In-names_of [] name p = cc
    In-names_of ((key, value) ∷ l) name p = elim (Bool-cases (text_eq key name)) [
      | inl t ↦ inl (ap (λ k. some k) (sym (text_eq_sound key name t)))
      | inr f ↦ inr (In-names_of l name (rw (sym (missed f)) p))
    ]
      where
        missed : text_eq key name ≡ false → get name ((key, value) ∷ l) ≡ get name l
        missed f =
            if-elim (λ o. o ≡ get name l) (text_eq key name) _ _
              (λ t. absurd (clash (text_eq key name) t f)) (λ x. refl)

    -- Every header is still there after its name is put in the case of the browser: under a name
    -- that is its own in lower case, with its value. The names that come in are in lower case.
    pub transform_headers_case_to_raw-Kept :
        (raw_headers : List Text) (name : Text)
        → is_there (get name headers) ≡ true
        → (raw : Text) × (to_lower raw ≡ name)
          × (get raw (transform_headers_case_to_raw headers raw_headers) ≡ get name headers)
    unfolding transform_headers_case_to_raw
    transform_headers_case_to_raw-Kept raw_headers name p =
        let start : Cased V = record { processed = []; names = names_of headers } in
        let origin = transform_origin_headers headers raw_headers start in
        let cased = calculate_forced_headers_case headers origin in
        let due =
          calculate_forced_headers_case-Due origin (
            transform_origin_headers-Due raw_headers start
              (λ n q. inr (In-names_of headers n q))) in
        add_service_headers-Kept cased.names cased.processed name p (due name p)
