-- ===== src/Storage.antt =====
-- client/sandbox/storages/wrapper.ts: the page's own view of `localStorage` or `sessionStorage`,
-- an object whose own properties are the items.
--
-- A state, in the source a pair of arrays of keys and of values, is the list of the pairs that the
-- loops read, (KEY[i], VALUE[i]); the value is `none` where the second array is shorter. The order
-- of own properties is that of insertion; keys that read as array indices, which JavaScript puts
-- first, are not put first. The text form of a state (JSON) and the browser's locations are
-- parameters, and so is what the listeners of a change do: they run while it is raised, and may write
-- items or start a check themselves. The events that they were given are listed.
pub mod Changes
pub mod Restore
mod Tests
use testcafe_hammerhead.Common.{
  ℕ, String, Bool, true, false, not, Option, none, some, List, [], ◌∷◌, ◌++◌, map, str_eq,
  opt_str_eq, if◌then◌else◌, truthy,
}
use testcafe_hammerhead.Common.Assoc.{lookup, insert, delete}

-- A property's value, `none` for `undefined`.
abbrev pub Value : Type 0
Value = Option String

abbrev pub StorageState : Type 0
StorageState = List (String × Value)

-- What `raiseStorageChanged` is called with; `none` is `null`.
pub record Change : Type 0 where
  pub key : String
  pub old_value : Option Value
  pub new_value : Option Value

pub record ChangeEvent : Type 0 where
  pub change : Change
  pub url : String

-- Windows are named by numbers.
pub record StorageWrapper : Type 0 where
  pub own : StorageState
  pub win : ℕ
  pub ctx : ℕ
  pub last_state : StorageState
  pub native_storage : List (String × String)
  pub native_storage_key : String
  pub emitted : List ChangeEvent

-- `location c` is `none` where reading the location of the window throws; `dest_url_of` is the
-- `destUrl` of `parseProxyUrl`, and `dest_location` is `destLocation.get()`. `listeners` is what the
-- listeners make of the wrapper when they are given an event.
pub record Env : Type 0 where
  pub location : ℕ → Option String
  pub dest_url_of : String → Option String
  pub dest_location : String
  pub stringify : StorageState → String
  pub parse : String → StorageState
  pub listeners : ChangeEvent → StorageWrapper → StorageWrapper

abbrev pub get_current_state : StorageWrapper → StorageState
get_current_state w = w.own

-- `splice` at the first index of the key
unfoldable pub splice_key : String → StorageState → StorageState
splice_key k [] = []
splice_key k ((j, v) ∷ s) = if str_eq j k then s else (j, v) ∷ splice_key k s

abbrev pub on_difference : String → Value → Value → List Change → List Change
on_difference k old new changes =
    if opt_str_eq new old
    then changes
    else record { key = k; old_value = some old; new_value = some new } ∷ changes

-- The two loops of `checkStorageChanged`: over the last state, with the current state from which
-- the keys that were found are taken out, then over what is left of that.
abbrev pub added : String × Value → Change
added e = record { key = e.0; old_value = none; new_value = some e.1 }

unfoldable pub changes_since : StorageState → StorageState → List Change
unfolding lookup splice_key
changes_since [] current = map added current
changes_since ((k, old) ∷ last) current = elim (lookup k current) [
  | some new ↦ on_difference k old new (changes_since last (splice_key k current))
  | none ↦ record { key = k; old_value = some old; new_value = none } ∷ changes_since last current
]

-- `delete` of each own property; the result says if there was one.
unfoldable pub clear_storage : StorageWrapper → StorageWrapper × Bool
clear_storage w = elim w.own [
  | [] ↦ (w, false)
  | _ ∷ _ ↦ (record w { own = []; last_state = [] }, true)
]

unfoldable pub assign_all : StorageState → StorageState → StorageState
unfolding insert
assign_all own [] = own
assign_all own ((k, v) ∷ state) = assign_all (insert k v own) state

module _ (env : Env) where
  abbrev pub context_url : Option String → String
  context_url none = env.dest_location
  context_url (some url) = url

  -- `emit`
  abbrev pub emit : ChangeEvent → StorageWrapper → StorageWrapper
  emit event w = env.listeners event (record w { emitted = w.emitted ++ event ∷ [] })

  unfoldable pub raise_storage_changed : StorageWrapper → Change → StorageWrapper
  raise_storage_changed w change = elim (env.location w.ctx) [
    | some location ↦
        emit (record { change = change; url = context_url (env.dest_url_of location) }) w
    | none ↦ emit (record { change = change; url = env.dest_location }) (record w { ctx = w.win })
  ]

  unfoldable pub raise_all : StorageWrapper → List Change → StorageWrapper
  unfolding raise_storage_changed
  raise_all w [] = w
  raise_all w (c ∷ cs) = raise_all (raise_storage_changed w c) cs

  unfoldable pub check_storage_changed : StorageWrapper → StorageWrapper
  unfolding raise_all changes_since
  check_storage_changed w =
      let raised = raise_all w (changes_since w.last_state (get_current_state w)) in
      record raised { last_state = get_current_state raised }

  -- It writes only a text that differs from the stored one.
  unfoldable pub save_to_native_storage : StorageWrapper → StorageWrapper
  unfolding insert lookup
  save_to_native_storage w =
      let state = env.stringify (get_current_state w) in
      if opt_str_eq (lookup w.native_storage_key w.native_storage) (some state)
      then w
      else record w { native_storage = insert w.native_storage_key state w.native_storage }

  -- The text that is loaded: the argument, else what the native storage has, else an empty state.
  unfoldable pub state_to_load : StorageWrapper → String → StorageState
  unfolding lookup
  state_to_load w text =
      if truthy text then env.parse text else elim (lookup w.native_storage_key w.native_storage) [
        | some stored ↦ if truthy stored then env.parse stored else []
        | none ↦ []
      ]

  unfoldable pub load_storage : StorageWrapper → String → StorageWrapper
  unfolding state_to_load assign_all
  load_storage w text =
      let state = state_to_load w text in
      record w { own = assign_all w.own state; last_state = state }

  unfoldable pub restore : StorageWrapper → String → StorageWrapper
  unfolding clear_storage load_storage
  restore w text = load_storage (clear_storage w).0 text

-- The traps of the proxy around the wrapper, for the page's writes and deletions.
unfoldable pub set_property : StorageWrapper → String → String → StorageWrapper
unfolding insert
set_property w k v = record w { own = insert k (some v) w.own }

unfoldable pub delete_property : StorageWrapper → String → StorageWrapper
unfolding delete
delete_property w k = record w { own = delete k w.own }
