-- ===== src/Script/Loop.antt =====
-- The rounds of the loop that rewrites one node.
use testcafe_hammerhead.Common.{
  ℕ, suc, ◌≡◌, refl, String, Bool, true, false, Option, none, some, List, [], ◌∷◌, str_eq, arith,
  if-elim, inl, inr, ◌⊎◌, All,
}
use testcafe_hammerhead.Script.Syntax.{Node, Nodes, Place, type_of}
use testcafe_hammerhead.Script.Builder.{create_simple_call_expression, create_identifier}
use testcafe_hammerhead.Script.Replace.{RunState, Settings}
use testcafe_hammerhead.Script.Calls.{
  eval_condition, eval_bind_condition, eval_call_apply_condition,
  post_message_call_apply_bind_condition, method_call_condition,
}
use testcafe_hammerhead.Script.Transform.{
  Transformer, transformers, find_transformer, first_that, for_type, Rewritten, rewritten,
  out_of_fuel, rewrite, after_run,
}

abbrev pub call_of : String → Nodes → Node
call_of name args = create_simple_call_expression (create_identifier name) args

-- No transformer is for a call of a function that hammerhead adds.
pub find_transformer-call :
    (settings : Settings) (state : RunState) (name : String) (args : Nodes) (place : Place)
    → str_eq name "eval" ≡ false
    → find_transformer settings state (call_of name args) place ≡ none
unfolding find_transformer first_that for_type eval_condition eval_bind_condition
    eval_call_apply_condition post_message_call_apply_bind_condition method_call_condition
find_transformer-call settings state name args place h = ground (arith, h)

-- The loop has ended, and it has a replacement at hand exactly if a transformer has replaced the
-- node.
abbrev pub Ended : Rewritten → Type 0
Ended (rewritten node (some new) transformed state) = transformed ≡ true
Ended (rewritten node none transformed state) = transformed ≡ false
Ended out_of_fuel = ⊥

abbrev pub rest_of_loop : Settings → ℕ → Node → Place → RunState → Rewritten
rest_of_loop settings fuel new at st = rewrite fuel settings new (some new) true at st

-- What a round leads to, when it applies `t`.
abbrev pub Round : Settings → ℕ → Bool → Node → Place → RunState → Transformer → Type 0
Round settings fuel transformed node place state t =
    t.condition state node place ≡ true
    → Ended
        (after_run (rest_of_loop settings fuel) t place node transformed (t.run node place state))

pub for_type-All :
    (P : Transformer → Type 0) (s : String) (l : List Transformer) → All P l → All P (for_type s l)
unfolding for_type
for_type-All P s [] h = tt
for_type-All P s (t ∷ ts) (p, h) =
    if-elim (All P) (str_eq t.node_types s) (t ∷ for_type s ts) (for_type s ts)
      (λ e. (p, for_type-All P s ts h)) (λ e. for_type-All P s ts h)

-- The transformer that is found is one of the list, and its condition holds.
pub first_that-cases :
    (P : Transformer → Type 0) (holds : Transformer → Bool) (l : List Transformer)
    → All (λ (t : Transformer). holds t ≡ true → P t) l
    → All P []
    → (first_that holds l ≡ none) ⊎ ((t : Transformer) × (first_that holds l ≡ some t) × P t)
unfolding first_that
first_that-cases P holds [] h u = inl refl
first_that-cases P holds (t ∷ ts) (p, h) u =
    if-elim (λ (o : Option Transformer). (o ≡ none) ⊎ ((t : Transformer) × (o ≡ some t) × P t))
      (holds t) (some t) (first_that holds ts) (λ e. inr (t, refl, p e))
      (λ e. first_that-cases P holds ts h u)

module _ (settings : Settings) where
  -- A round where a transformer is found, and one where none is.
  pub round-some :
      (fuel : ℕ) (node : Node) (current : Option Node) (transformed : Bool) (place : Place)
      (state : RunState) (t : Transformer)
      → find_transformer settings state node place ≡ some t
      → rewrite (suc fuel) settings node current transformed place state
        ≡ after_run (rest_of_loop settings fuel) t place node transformed (t.run node place state)
  unfolding rewrite find_transformer
  round-some fuel node current transformed place state t e = rw (e, rewrite) refl

  pub round-none :
      (fuel : ℕ) (node : Node) (current : Option Node) (transformed : Bool) (place : Place)
      (state : RunState)
      → find_transformer settings state node place ≡ none
      → rewrite (suc fuel) settings node current transformed place state
        ≡ rewritten node current transformed state
  unfolding rewrite find_transformer
  round-none fuel node current transformed place state e = rw (e, rewrite) refl

  -- The loop ends where no transformer is found.
  pub last_round :
      (fuel : ℕ) (node : Node) (current : Option Node) (transformed : Bool) (place : Place)
      (state : RunState)
      → find_transformer settings state node place ≡ none
      → Ended (rewritten node current transformed state)
      → Ended (rewrite (suc fuel) settings node current transformed place state)
  unfolding rewrite find_transformer
  last_round fuel node current transformed place state e ended = rw (e, rewrite) ended

  -- A round, from what each transformer for the type of the node leads to.
  pub round :
      (fuel : ℕ) (node : Node) (current : Option Node) (transformed : Bool) (place : Place)
      (state : RunState)
      → Ended (rewritten node current transformed state)
      → All
          (Round settings fuel transformed node place state)
          (for_type (type_of node) (transformers settings))
      → Ended (rewrite (suc fuel) settings node current transformed place state)
  unfolding rewrite find_transformer
  round fuel node current transformed place state ended all =
      elim (first_that-cases
        (λ t. Ended (
          after_run (rest_of_loop settings fuel) t place node transformed (t.run node place state)))
        (λ t. t.condition state node place) (for_type (type_of node) (transformers settings)) all
        tt) [ inl e ↦ rw (e, rewrite) ended | inr (t, e, p) ↦ rw (e, rewrite) p ]
