-- ===== src/HeaderTransforms/Transformed.antt =====
-- What becomes of one header.
use testcafe_hammerhead.Common.{
  ◌≡◌, refl, ap, sym, ◌∙◌, Bool, true, false, Option, none, some, List, [], ◌∷◌, if◌then◌else◌,
  if-elim, clash, Bool-cases, inl, inr,
}
use testcafe_hammerhead.Common.Chars.{Text, text_eq}
use testcafe_hammerhead.Charset.Names.{text_eq_sound}
use testcafe_hammerhead.HeaderTransforms.{
  get, assign, transformed, apply_transform, apply_all, force_all, transform_headers, is_there,
  TransformOf,
}
use testcafe_hammerhead.HeaderTransforms.Kept.{get-set}

get_hit :
    {A : Type 0} (n name : Text) (v : A) (l : List (Text × A))
    → text_eq n name ≡ true
    → get name ((n, v) ∷ l) ≡ some v
get_hit n name v l t =
    if-elim (λ o. o ≡ some v) (text_eq n name) _ _ (λ x. refl)
      (λ f. absurd (clash (text_eq n name) t f))

get_miss :
    {A : Type 0} (n name : Text) (v : A) (l : List (Text × A))
    → text_eq n name ≡ false
    → get name ((n, v) ∷ l) ≡ get name l
get_miss n name v l f =
    if-elim (λ o. o ≡ get name l) (text_eq n name) _ _ (λ t. absurd (clash (text_eq n name) t f))
      (λ x. refl)

module _ {V : Type 0} where
  abbrev pub or_kept : Option V → Option V → Option V
  or_kept none kept = kept
  or_kept (some value) kept = some value

  get-assign :
      (n name : Text) (o : Option V) (l : List (Text × V))
      → get name (assign n o l) ≡ (if text_eq n name then or_kept o (get name l) else get name l)
  get-assign n name none l =
      if-elim (λ x. get name l ≡ x) (text_eq n name) _ _ (λ t. refl) (λ f. refl)
  get-assign n name (some v) l = get-set n name v l

  assign_hit :
      (n name : Text) (o : Option V) (l : List (Text × V))
      → text_eq n name ≡ true
      → get name (assign n o l) ≡ or_kept o (get name l)
  assign_hit n name o l t =
      get-assign n name o l
      ∙ if-elim (λ x. x ≡ or_kept o (get name l)) (text_eq n name) _ _ (λ x. refl)
          (λ f. absurd (clash (text_eq n name) t f))

  assign_miss :
      (n name : Text) (o : Option V) (l : List (Text × V))
      → text_eq n name ≡ false
      → get name (assign n o l) ≡ get name l
  assign_miss n name o l f =
      get-assign n name o l
      ∙ if-elim (λ x. x ≡ get name l) (text_eq n name) _ _
          (λ t. absurd (clash (text_eq n name) t f)) (λ x. refl)

  or_kept_twice : (o kept : Option V) → or_kept o (or_kept o kept) ≡ or_kept o kept
  or_kept_twice none kept = refl
  or_kept_twice (some v) kept = refl

  again :
      (b : Bool) (o kept : Option V)
      → (if b then or_kept o (or_kept o kept) else or_kept o kept) ≡ or_kept o kept
  again true o kept = or_kept_twice o kept
  again false o kept = refl

-- No name is listed twice.
abbrev pub AllNamesDiffer : {C V : Type 0} → List (Text × TransformOf C V) → Type 0
AllNamesDiffer [] = Unit
AllNamesDiffer ((n, t) ∷ rest) = (get n rest ≡ none) × AllNamesDiffer rest

module _ {C V : Type 0} (ctx : C) where
  -- The header that comes in, transformed, and then what is forced on it.
  abbrev pub given : Text → List (Text × V) → List (Text × TransformOf C V) → Option V
  given name src transforms =
      if is_there (get name src) then transformed ctx (get name transforms) (get name src) else none

  abbrev pub forced : Text → List (Text × TransformOf C V) → Option V → Option V
  forced name transforms value =
      if is_there (get name transforms)
      then or_kept (transformed ctx (get name transforms) value) value
      else value

  get-apply_all :
      (rest src : List (Text × V)) (transforms : List (Text × TransformOf C V))
      (dest : List (Text × V)) (name : Text)
      → get name (apply_all ctx rest src transforms dest) ≡ (
          if is_there (get name rest)
          then or_kept (transformed ctx (get name transforms) (get name src)) (get name dest)
          else get name dest)
  unfolding apply_all apply_transform
  get-apply_all [] src transforms dest name = refl
  get-apply_all ((n, v) ∷ rest) src transforms dest name =
      let o = transformed ctx (get n transforms) (get n src) in
      let p = transformed ctx (get name transforms) (get name src) in
      get-apply_all rest src transforms (assign n o dest) name
      ∙ elim (Bool-cases (text_eq n name)) [
        | inl t ↦
            ap (λ x. if is_there (get name rest) then or_kept p x else x)
              (assign_hit n name o dest t
                ∙ ap (λ m. or_kept (transformed ctx (get m transforms) (get m src)) (get name dest))
                    (text_eq_sound n name t))
            ∙ again (is_there (get name rest)) p (get name dest)
            ∙ ap (λ x. if is_there x then or_kept p (get name dest) else get name dest)
                (sym (get_hit n name v rest t))
        | inr f ↦
            ap (λ x. if is_there (get name rest) then or_kept p x else x)
              (assign_miss n name o dest f)
            ∙ ap (λ x. if is_there x then or_kept p (get name dest) else get name dest)
                (sym (get_miss n name v rest f))
      ]

  get-force_all :
      (rest transforms : List (Text × TransformOf C V)) (dest : List (Text × V)) (name : Text)
      → AllNamesDiffer rest
      → get name (force_all ctx rest transforms dest) ≡ (
          if is_there (get name rest)
          then or_kept (transformed ctx (get name transforms) (get name dest)) (get name dest)
          else get name dest)
  unfolding force_all apply_transform
  get-force_all [] transforms dest name d = refl
  get-force_all ((n, t) ∷ rest) transforms dest name (d, ds) =
      let o = transformed ctx (get n transforms) (get n dest) in
      let dest' = assign n o dest in
      let q = λ (x : Option V). or_kept (transformed ctx (get name transforms) x) x in
      get-force_all rest transforms dest' name ds ∙ elim (Bool-cases (text_eq n name)) [
        | inl h ↦
            ap (λ x. if is_there x then q (get name dest') else get name dest')
              (ap (λ m. get m rest) (sym (text_eq_sound n name h)) ∙ d)
            ∙ assign_hit n name o dest h
            ∙ ap (λ m. or_kept (transformed ctx (get m transforms) (get m dest)) (get name dest))
                (text_eq_sound n name h)
            ∙ ap (λ x. if is_there x then q (get name dest) else get name dest)
                (sym (get_hit n name t rest h))
        | inr f ↦
            ap (λ y. if is_there (get name rest) then q y else y) (assign_miss n name o dest f)
            ∙ ap (λ x. if is_there x then q (get name dest) else get name dest)
                (sym (get_miss n name t rest f))
      ]

  kept_of_absent :
      (b : Bool) (o : Option V) → (if b then or_kept o none else none) ≡ (if b then o else none)
  kept_of_absent true none = refl
  kept_of_absent true (some v) = refl
  kept_of_absent false o = refl

  -- In any context, a header of the result is the header of the same name that came in, after its
  -- transform in that context, and after its forced transform where there is one; a forced transform
  -- that gives nothing leaves the header as it is. No forced transform is listed twice.
  pub get-transform_headers :
      (src : List (Text × V)) (transforms forced_transforms : List (Text × TransformOf C V))
      (name : Text)
      → AllNamesDiffer forced_transforms
      → get name (transform_headers ctx src transforms forced_transforms)
        ≡ forced name forced_transforms (given name src transforms)
  unfolding transform_headers
  get-transform_headers src transforms forced_transforms name d =
      get-force_all forced_transforms forced_transforms (apply_all ctx src src transforms []) name d
      ∙ ap (forced name forced_transforms) (
          get-apply_all src src transforms [] name
          ∙ kept_of_absent (is_there (get name src))
              (transformed ctx (get name transforms) (get name src)))
