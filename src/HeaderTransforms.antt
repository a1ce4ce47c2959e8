-- ===== src/HeaderTransforms.antt =====
-- request-pipeline/header-transforms/index.ts: the headers of a message, from name to value in the
-- order of their insertion.
--
-- A transform gets the value that is there, if any, and the context, which has the headers of the
-- message among other things, and gives the new value or nothing. Header names that are array indices, which JavaScript lists first, do not occur.

pub mod Transformed
pub mod Kept
pub mod Prefixes
pub mod Transforms
pub mod Policies
mod Tests
use testcafe_hammerhead.Common.{
  ◌≡◌, ℕ, Bool, true, false, not, ◌&&◌, Option, none, some, List, [], ◌∷◌, ◌++◌, map, if◌then◌else◌,
}
use testcafe_hammerhead.Common.Chars.{Text, codes, to_lower, text_eq}

abbrev pub get : {A : Type 0} → Text → List (Text × A) → Option A
get name [] = none
get name ((key, value) ∷ rest) =
    let found = get name rest in if text_eq key name then some value else found

-- The names that are left; a name that is used is `void 0`.
abbrev pub mark_used : Text → List (Option Text) → List (Option Text)
mark_used name [] = []
mark_used name (none ∷ names) = none ∷ mark_used name names
mark_used name (some other ∷ names) =
    let rest = mark_used name names in
    if text_eq other name then none ∷ names else some other ∷ rest

abbrev pub has_name : Text → List (Option Text) → Bool
has_name name [] = false
has_name name (none ∷ names) = has_name name names
has_name name (some other ∷ names) =
    let rest = has_name name names in if text_eq other name then true else rest

-- The headers in their new case, and the names that are left.
pub record Cased (V : Type 0) : Type 0 where
  pub processed : List (Text × V)
  pub names : List (Option Text)

-- What a transform gives for a header that is there or not, in a context.
abbrev pub TransformOf : Type 0 → Type 0 → Type 0
TransformOf C V = Option V → C → Option V

module _ {V : Type 0} where
  abbrev pub set : Text → V → List (Text × V) → List (Text × V)
  set name value [] = (name, value) ∷ []
  set name value ((key, old) ∷ rest) =
      let others = set name value rest in
      if text_eq key name then (key, value) ∷ rest else (key, old) ∷ others

  -- An assignment that is left out for `undefined`.
  abbrev pub assign : Text → Option V → List (Text × V) → List (Text × V)
  assign name none headers = headers
  assign name (some value) headers = set name value headers

module _ {C V : Type 0} (ctx : C) where
  abbrev pub transformed : Option (TransformOf C V) → Option V → Option V
  transformed none src = src
  transformed (some transform) src = transform src ctx

  -- `applyTransform`
  unfoldable pub apply_transform :
      Text → List (Text × V) → List (Text × TransformOf C V) → List (Text × V) → List (Text × V)
  apply_transform header_name headers transforms dest_headers =
      assign header_name (transformed (get header_name transforms) (get header_name headers))
        dest_headers

  unfoldable pub apply_all :
      List (Text × V)
      → List (Text × V)
      → List (Text × TransformOf C V)
      → List (Text × V)
      → List (Text × V)
  unfolding apply_transform
  apply_all [] headers transforms dest_headers = dest_headers
  apply_all ((name, value) ∷ rest) headers transforms dest_headers =
      apply_all rest headers transforms (apply_transform name headers transforms dest_headers)

  unfoldable pub force_all :
      List (Text × TransformOf C V)
      → List (Text × TransformOf C V)
      → List (Text × V)
      → List (Text × V)
  unfolding apply_transform
  force_all [] transforms dest_headers = dest_headers
  force_all ((name, transform) ∷ rest) transforms dest_headers =
      force_all rest transforms (apply_transform name dest_headers transforms dest_headers)

  unfoldable pub transform_headers :
      List (Text × V)
      → List (Text × TransformOf C V)
      → List (Text × TransformOf C V)
      → List (Text × V)
  unfolding apply_all force_all
  transform_headers src_headers transform_list forced_transforms =
      force_all forced_transforms forced_transforms
        (apply_all src_headers src_headers transform_list [])

module _ {V : Type 0} where
  abbrev pub use_name : Text → Text → List (Text × V) → Cased V → Cased V
  use_name raw name headers c = record {
    processed = assign raw (get name headers) c.processed;
    names = mark_used name c.names;
  }

  -- `transformOriginHeaders`; the raw headers are names and values in turn.
  unfoldable pub transform_origin_headers : List (Text × V) → List Text → Cased V → Cased V
  transform_origin_headers headers [] c = c
  transform_origin_headers headers (raw ∷ []) c =
      if has_name (to_lower raw) c.names then use_name raw (to_lower raw) headers c else c
  transform_origin_headers headers (raw ∷ value ∷ rest) c =
      transform_origin_headers headers rest
        (if has_name (to_lower raw) c.names then use_name raw (to_lower raw) headers c else c)

  abbrev pub is_there : Option V → Bool
  is_there none = false
  is_there (some value) = true

  abbrev pub force_case : Text → Text → Bool → List (Text × V) → Cased V → Cased V
  force_case lower_case browser_case starts_with_upper headers c =
      if starts_with_upper && is_there (get lower_case headers)
      then use_name browser_case lower_case headers c
      else c

  -- `calculateForcedHeadersCase`, over FORCED_REQ_HEADERS_BROWSER_CASES
  unfoldable pub calculate_forced_headers_case : List (Text × V) → Cased V → Cased V
  calculate_forced_headers_case headers c =
      let upper = is_there (get (codes "Referer") c.processed) in
      force_case (codes "origin") (codes "Origin") upper headers
        (force_case (codes "cookie") (codes "Cookie") upper headers c)

  unfoldable pub add_service_headers :
      List (Text × V) → List (Option Text) → List (Text × V) → List (Text × V)
  add_service_headers headers [] processed = processed
  add_service_headers headers (none ∷ names) processed = add_service_headers headers names processed
  add_service_headers headers (some name ∷ names) processed =
      add_service_headers headers names (assign name (get name headers) processed)

  abbrev pub names_of : List (Text × V) → List (Option Text)
  names_of [] = []
  names_of ((name, value) ∷ headers) = some name ∷ names_of headers

  unfoldable pub transform_headers_case_to_raw : List (Text × V) → List Text → List (Text × V)
  unfolding transform_origin_headers calculate_forced_headers_case add_service_headers
  transform_headers_case_to_raw headers raw_headers =
      let origin =
        transform_origin_headers headers raw_headers
          (record { processed = []; names = names_of headers }) in
      let cased = calculate_forced_headers_case headers origin in
      add_service_headers headers cased.names cased.processed

  abbrev pub delete : Text → List (Text × V) → List (Text × V)
  delete name [] = []
  delete name ((key, value) ∷ rest) =
      let others = delete name rest in if text_eq key name then others else (key, value) ∷ others

  -- `setupPreventCachingHeaders`, with the two values of PREVENT_CACHING_HEADERS
  unfoldable pub setup_prevent_caching_headers : V → V → List (Text × V) → List (Text × V)
  setup_prevent_caching_headers cache_control pragma headers = delete (codes "expires") (
      delete (codes "etag")
        (set (codes "pragma") pragma (set (codes "cache-control") cache_control headers)))
