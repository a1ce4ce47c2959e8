-- ===== src/Storage/Restore.antt =====
-- Checks, loads and saves of a whole wrapper.
use mathlib.Core.List.{append_assoc, append-nil, map-append}
use text.Mathlib.TextPositions.{eq_refl}
use testcafe_hammerhead.Common.{
  String, ◌≡◌, refl, ap, sym, ◌∙◌, Bool, true, Option, none, some, List, [], ◌∷◌, ◌++◌, map, arith,
  eq_iff, opt_str_eq, opt_str_eq_iff, Bool-cases, Option-cases, inl, inr, truthy,
}
use testcafe_hammerhead.Common.Assoc.{lookup, insert, lookup-insert}
use testcafe_hammerhead.Storage.{
  Value, StorageState, StorageWrapper, Env, Change, ChangeEvent, changes_since,
  raise_storage_changed, raise_all, check_storage_changed, save_to_native_storage, clear_storage,
  assign_all, state_to_load, load_storage, restore,
}
use testcafe_hammerhead.Storage.Changes.{DistinctKeys}

abbrev pub reported : StorageWrapper → List Change
reported w = map (λ e. e.change) w.emitted

-- The listeners report nothing by checks of their own, and change no items.
abbrev pub NoChecks : Env → Type 0
NoChecks env = (e : ChangeEvent) (w : StorageWrapper) → reported (env.listeners e w) ≡ reported w

abbrev pub NoWrites : Env → Type 0
NoWrites env = (e : ChangeEvent) (w : StorageWrapper) → (env.listeners e w).own ≡ w.own

module _ (env : Env) where
  raise_storage_changed-reported :
      (w : StorageWrapper) (c : Change)
      → NoChecks env
      → reported (raise_storage_changed env w c) ≡ reported w ++ c ∷ []
  unfolding raise_storage_changed
  raise_storage_changed-reported w c q = elim (Option-cases (env.location w.ctx)) [
    | inl e ↦ rw (e, raise_storage_changed, q) (map-append _ w.emitted _)
    | inr (l, e) ↦ rw (e, raise_storage_changed, q) (map-append _ w.emitted _)
  ]

  raise_storage_changed-own :
      (w : StorageWrapper) (c : Change) → NoWrites env → (raise_storage_changed env w c).own ≡ w.own
  unfolding raise_storage_changed
  raise_storage_changed-own w c q = elim (Option-cases (env.location w.ctx)) [
    | inl e ↦ rw (e, raise_storage_changed, q) refl
    | inr (l, e) ↦ rw (e, raise_storage_changed, q) refl
  ]

  raise_all-reported :
      (w : StorageWrapper) (cs : List Change)
      → NoChecks env
      → reported (raise_all env w cs) ≡ reported w ++ cs
  unfolding raise_all
  raise_all-reported w [] q = sym (append-nil _)
  raise_all-reported w (c ∷ cs) q =
      raise_all-reported (raise_storage_changed env w c) cs q
      ∙ ap (λ x. x ++ cs) (raise_storage_changed-reported w c q)
      ∙ append_assoc (reported w) (c ∷ []) cs

  raise_all-own :
      (w : StorageWrapper) (cs : List Change) → NoWrites env → (raise_all env w cs).own ≡ w.own
  unfolding raise_all
  raise_all-own w [] q = refl
  raise_all-own w (c ∷ cs) q =
      raise_all-own (raise_storage_changed env w c) cs q ∙ raise_storage_changed-own w c q

  -- With listeners that report nothing themselves, a check reports, behind what was reported before,
  -- exactly the changes from the last state to the items as they were when it began, even where the
  -- listeners write items meanwhile; the items as they are at its end are the last state afterwards.
  -- Where the listeners write no items, these are the items from before.
  pub check_storage_changed-reported :
      (w : StorageWrapper)
      → NoChecks env
      → (reported (check_storage_changed env w) ≡ reported w ++ changes_since w.last_state w.own)
        × ((check_storage_changed env w).last_state ≡ (check_storage_changed env w).own)
        × (NoWrites env → (check_storage_changed env w).last_state ≡ w.own)
  unfolding check_storage_changed
  check_storage_changed-reported w q = (
    raise_all-reported w (changes_since w.last_state w.own) q,
    refl,
    λ n. raise_all-own w (changes_since w.last_state w.own) n,
  )

changes_since_self : (s : StorageState) → DistinctKeys s → changes_since s s ≡ []
unfolding changes_since
changes_since_self [] h = refl
changes_since_self ((k, v) ∷ s) h =
    ground (arith, eq_iff k k, opt_str_eq_iff v v, changes_since_self s h.1)

insert_of_fresh :
    (k : String) (v : Value) (s : StorageState)
    → lookup k s ≡ none
    → insert k v s ≡ s ++ (k, v) ∷ []
unfolding insert lookup
insert_of_fresh k v [] h = refl
insert_of_fresh k v ((j, w) ∷ s) h = ground (arith, insert_of_fresh k v s)

-- No key of the second state stands in the first.
AreApart : StorageState → StorageState → Type 0
AreApart own [] = Unit
AreApart own ((k, v) ∷ state) = (lookup k own ≡ none) × AreApart own state

AreApart-insert :
    (k : String) (v : Value) (own state : StorageState)
    → AreApart own state
    → lookup k state ≡ none
    → AreApart (insert k v own) state
unfolding AreApart lookup
AreApart-insert k v own [] h n = tt
AreApart-insert k v own ((j, w) ∷ state) h n = (
  ground (arith, lookup-insert k j v own, eq_iff k j, eq_iff j k),
  AreApart-insert k v own state h.1 (ground arith),
)

assign_all_of_apart :
    (own state : StorageState)
    → AreApart own state
    → DistinctKeys state
    → assign_all own state ≡ own ++ state
unfolding assign_all AreApart
assign_all_of_apart own [] h d = sym (append-nil own)
assign_all_of_apart own ((k, v) ∷ state) h d =
    assign_all_of_apart (insert k v own) state (AreApart-insert k v own state h.1 d.0) d.1
    ∙ ap (λ x. x ++ state) (insert_of_fresh k v own h.0)
    ∙ append_assoc own ((k, v) ∷ []) state

AreApart-nil : (state : StorageState) → AreApart [] state
unfolding AreApart lookup
AreApart-nil [] = tt
AreApart-nil ((k, v) ∷ state) = (refl, AreApart-nil state)

clear_storage-own : (w : StorageWrapper) → (clear_storage w).0.own ≡ []
unfolding clear_storage
clear_storage-own w = go w.own refl
  where
    go : (s : StorageState) → w.own ≡ s → (clear_storage w).0.own ≡ []
    go [] e = rw (e, clear_storage) e
    go (x ∷ s) e = rw (e, clear_storage)

state_to_load-clear_storage :
    (env : Env) (w : StorageWrapper) (text : String)
    → state_to_load env (clear_storage w).0 text ≡ state_to_load env w text
unfolding clear_storage state_to_load
state_to_load-clear_storage env w text = ground arith

-- What is stored is what an empty argument loads.
state_to_load_of_stored :
    (env : Env) (w : StorageWrapper) (text : String)
    → lookup w.native_storage_key w.native_storage ≡ some text
    → truthy text ≡ true
    → state_to_load env w "" ≡ env.parse text
unfolding state_to_load
state_to_load_of_stored env w text e t = rw (e, t)

lookup-save_to_native_storage :
    (env : Env) (w : StorageWrapper)
    → lookup
        (save_to_native_storage env w).native_storage_key
        (save_to_native_storage env w).native_storage
      ≡ some (env.stringify w.own)
unfolding save_to_native_storage lookup
lookup-save_to_native_storage env w = elim (Bool-cases same) [
  | inl e ↦ rw (e, save_to_native_storage) ((opt_str_eq_iff stored (some text)).0 e)
  | inr e ↦ rw (e, save_to_native_storage) (simp (lookup-insert, eq_refl))
]
  where
    text : String
    text = env.stringify w.own

    stored : Option String
    stored = lookup w.native_storage_key w.native_storage

    same : Bool
    same = opt_str_eq stored (some text)

module _ (env : Env) where
  restore_lem :
      (w : StorageWrapper) (text : String)
      → DistinctKeys (state_to_load env w text)
      → ((restore env w text).own ≡ state_to_load env w text)
        × ((restore env w text).last_state ≡ state_to_load env w text)
  unfolding restore load_storage
  restore_lem w text d =
      rw (clear_storage-own, state_to_load-clear_storage)
        (assign_all_of_apart [] (state_to_load env w text) (AreApart-nil _) d, refl)

  quiet :
      (v : StorageWrapper) {s : StorageState}
      → v.own ≡ s
      → v.last_state ≡ s
      → DistinctKeys s
      → reported (check_storage_changed env v) ≡ reported v
  unfolding check_storage_changed raise_all
  quiet v {s} o l d = rw (l, o, changes_since_self s d) refl

  -- After a restore of a state of distinct keys the items are those of the state, and a check reports
  -- nothing.
  pub check_storage_changed-restore :
      (w : StorageWrapper) (text : String)
      → DistinctKeys (state_to_load env w text)
      → ((restore env w text).own ≡ state_to_load env w text)
        × (reported (check_storage_changed env (restore env w text))
            ≡ reported (restore env w text))
  check_storage_changed-restore w text d =
      let (o, l) = restore_lem w text d in (o, quiet (restore env w text) o l d)

  -- What a wrapper has saved, a restore without a text brings back in any wrapper that has the native
  -- storage as the save left it, and the same key, whatever its own items were, if the saved items
  -- have distinct keys and their text form is not empty and reads back as these items.
  pub restore-save_to_native_storage :
      (w v : StorageWrapper)
      → v.native_storage ≡ (save_to_native_storage env w).native_storage
      → v.native_storage_key ≡ (save_to_native_storage env w).native_storage_key
      → DistinctKeys w.own
      → truthy (env.stringify w.own) ≡ true
      → env.parse (env.stringify w.own) ≡ w.own
      → (restore env v "").own ≡ w.own
  restore-save_to_native_storage w v storage key d t p =
      let e =
        state_to_load_of_stored env v (env.stringify w.own)
          (ap (λ n. lookup v.native_storage_key n) storage
            ∙ ap (λ k. lookup k (save_to_native_storage env w).native_storage) key
            ∙ lookup-save_to_native_storage env w)
          t
        ∙ p in
      (restore_lem v "" (rw e d)).0 ∙ e
