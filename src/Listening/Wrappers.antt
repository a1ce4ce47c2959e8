-- ===== src/Listening/Wrappers.antt =====
-- Outer handlers and their wrappers: two arrays that are kept side by side.
use mathlib.Core.Option
use testcafe_hammerhead.Common.{
  ℕ, zero, suc, ◌≡◌, ◌∙◌, refl, ap, Bool, true, false, Option, none, some, List, [], ◌∷◌, ◌++◌,
  arith, bool_eq, length, erase_idx, get_elem?, if◌then◌else◌, Bool-cases, Option-cases, inl, inr,
}
use testcafe_hammerhead.Listening.{
  OuterHandler, EventCtx, wrap_event_listener, is_listener, find_listener, get_wrapper,
}

-- The two arrays as one list of pairs.
unfoldable pub pairs : List OuterHandler → List ℕ → List (OuterHandler × ℕ)
pairs [] ws = []
pairs (h ∷ hs) [] = []
pairs (h ∷ hs) (w ∷ ws) = (h, w) ∷ pairs hs ws

abbrev pub IsParallel : EventCtx → Type 0
IsParallel c = length c.outer_handlers ≡ length c.wrappers

abbrev pub bindings : EventCtx → List (OuterHandler × ℕ)
bindings c = pairs c.outer_handlers c.wrappers

-- The first binding of a listener, and the others.
unfoldable pub take_binding :
    ℕ → Bool → List (OuterHandler × ℕ) → Option ℕ × List (OuterHandler × ℕ)
take_binding listener use_capture [] = (none, [])
take_binding listener use_capture ((h, w) ∷ bs) =
    let (found, rest) = take_binding listener use_capture bs in
    if is_listener listener use_capture h then (some w, bs) else (found, (h, w) ∷ rest)

abbrev outcome : Option ℕ → List OuterHandler → List ℕ → Option ℕ × List (OuterHandler × ℕ)
outcome none hs ws = (none, pairs hs ws)
outcome (some i) hs ws = (get_elem? ws i, pairs (erase_idx hs i) (erase_idx ws i))

outcome-suc :
    (r : Option ℕ) (h : OuterHandler) (w : ℕ) (hs : List OuterHandler) (ws : List ℕ)
    → outcome (Option.map suc r) (h ∷ hs) (w ∷ ws)
      ≡ ((outcome r hs ws).0, (h, w) ∷ (outcome r hs ws).1)
unfolding pairs
outcome-suc none h w hs ws = refl
outcome-suc (some i) h w hs ws = refl

outcome-find_listener :
    (l : ℕ) (u : Bool) (hs : List OuterHandler) (ws : List ℕ)
    → length hs ≡ length ws
    → outcome (find_listener l u hs) hs ws ≡ take_binding l u (pairs hs ws)
unfolding find_listener take_binding pairs
outcome-find_listener l u [] ws e = refl
outcome-find_listener l u (h ∷ hs) [] e = absurd (omega arith)
outcome-find_listener l u (h ∷ hs) (w ∷ ws) e = elim (Bool-cases (is_listener l u h)) [
  | inl same ↦ rw same
  | inr other ↦ rw other (
      outcome-suc (find_listener l u hs) h w hs ws
      ∙ ap (λ (p : Option ℕ × List (OuterHandler × ℕ)). (p.0, (h, w) ∷ p.1))
          (outcome-find_listener l u hs ws (omega arith)))
]

length-erase_idx :
    {A B : Type 0} (xs : List A) (ys : List B) (i : ℕ)
    → length xs ≡ length ys
    → length (erase_idx xs i) ≡ length (erase_idx ys i)
length-erase_idx [] [] i e = refl
length-erase_idx [] (y ∷ ys) i e = absurd (omega arith)
length-erase_idx (x ∷ xs) [] i e = absurd (omega arith)
length-erase_idx (x ∷ xs) (y ∷ ys) zero e = omega arith
length-erase_idx (x ∷ xs) (y ∷ ys) (suc i) e = omega (arith, length-erase_idx xs ys i)

-- `getWrapper` returns the wrapper of the first binding of the listener and takes this binding
-- out, and leaves everything where there is none.
pub get_wrapper-take_binding :
    (c : EventCtx) (listener : ℕ) (use_capture : Bool)
    → IsParallel c
    → IsParallel (get_wrapper c listener use_capture).1
      × (((get_wrapper c listener use_capture).0, bindings (get_wrapper c listener use_capture).1)
          ≡ take_binding listener use_capture (bindings c))
unfolding get_wrapper
get_wrapper-take_binding c l u e = elim (Option-cases (find_listener l u c.outer_handlers)) [
  | inl n ↦
      rw (n, get_wrapper) (e, rw n at (outcome-find_listener l u c.outer_handlers c.wrappers e))
  | inr (i, s) ↦
      rw (s, get_wrapper)
        (
          length-erase_idx c.outer_handlers c.wrappers i e,
          rw s at (outcome-find_listener l u c.outer_handlers c.wrappers e),
        )
]

-- The listener has no binding.
abbrev pub IsUnbound : ℕ → Bool → EventCtx → Type 0
IsUnbound l u c = find_listener l u c.outer_handlers ≡ none

bool_eq_refl : (b : Bool) → bool_eq b b ≡ true
bool_eq_refl true = refl
bool_eq_refl false = refl

eq-none_of_map : (o : Option ℕ) → Option.map suc o ≡ none → o ≡ none
eq-none_of_map none e = refl
eq-none_of_map (some i) e = cc

find_listener-append :
    (l : ℕ) (u : Bool) (hs : List OuterHandler)
    → find_listener l u hs ≡ none
    → find_listener l u (hs ++ record { fn = l; use_capture = u } ∷ []) ≡ some (length hs)
unfolding find_listener
find_listener-append l u [] e = ground (arith, bool_eq_refl u)
find_listener-append l u (h ∷ hs) e = elim (Bool-cases (is_listener l u h)) [
  | inl same ↦ cc (rw same at e)
  | inr other ↦
      rw
        (other, find_listener-append l u hs (eq-none_of_map (find_listener l u hs) (rw other at e)))
]

get_elem?-append_last :
    {A : Type 0} (xs : List A) (x : A)
    → (get_elem? (xs ++ x ∷ []) (length xs) ≡ some x) × (erase_idx (xs ++ x ∷ []) (length xs) ≡ xs)
get_elem?-append_last [] x = (refl, refl)
get_elem?-append_last (y ∷ xs) x = let (g, e) = get_elem?-append_last xs x in (g, ap (λ l. y ∷ l) e)

-- A listener without a binding that is wrapped gets its wrapper back, and the context is as before.
pub get_wrapper-wrap_event_listener :
    (c : EventCtx) (listener wrapper : ℕ) (use_capture : Bool)
    → IsParallel c
    → IsUnbound listener use_capture c
    → get_wrapper (wrap_event_listener c listener wrapper use_capture) listener use_capture
      ≡ (some wrapper, c)
unfolding get_wrapper wrap_event_listener
get_wrapper-wrap_event_listener c l w u e n =
    let (_, outer) = get_elem?-append_last c.outer_handlers (record { fn = l; use_capture = u }) in
    let (found, rest) = get_elem?-append_last c.wrappers w in
    rw (find_listener-append l u c.outer_handlers n, get_wrapper) (rw (outer, e, found, rest))
