-- ===== src/Storage/Tests.antt =====
-- Runs of the storage wrapper at a concrete state.
use testcafe_hammerhead.Common.{◌≡◌, refl, none, some, [], ◌∷◌, ◌++◌}
use testcafe_hammerhead.Common.Assoc.{lookup, insert}
use testcafe_hammerhead.Storage.{
  StorageState, StorageWrapper, Env, changes_since, check_storage_changed, save_to_native_storage,
  state_to_load, restore, set_property,
}
use testcafe_hammerhead.Storage.Changes.{changes_of, difference, changes_of-changes_since}
use testcafe_hammerhead.Storage.Restore.{
  reported, NoWrites, check_storage_changed-reported, check_storage_changed-restore,
  restore-save_to_native_storage,
}

abbrev before : StorageState
before = ("a", some "1") ∷ ("b", some "2") ∷ []

abbrev after : StorageState
after = ("c", some "4") ∷ ("b", some "3") ∷ []

-- An environment whose text form is right for one state.
abbrev env : Env
env = record {
  location = λ c. none;
  dest_url_of = λ l. none;
  dest_location = "http://example.com/";
  stringify = λ s. "text";
  parse = λ t. after;
  listeners = λ e w. w;
}

abbrev wrapper : StorageWrapper
wrapper = record {
  own = after;
  win = 0;
  ctx = 1;
  last_state = before;
  native_storage = [];
  native_storage_key = "hammerhead|storage-wrapper|host";
  emitted = [];
}

changes :
    changes_since before after
    ≡ record { key = "a"; old_value = some (some "1"); new_value = none }
      ∷ record { key = "b"; old_value = some (some "2"); new_value = some (some "3") }
      ∷ record { key = "c"; old_value = none; new_value = some (some "4") }
      ∷ []
unfolding changes_since
changes = refl

changes_of-changes_since_example :
    changes_of "b" (changes_since before after)
    ≡ difference "b" (lookup "b" before) (lookup "b" after)
unfolding lookup
changes_of-changes_since_example =
    changes_of-changes_since "b" before after (refl, (refl, tt)) (refl, (refl, tt))

-- Listeners that write an item at each event, past the proxy and without a check.
abbrev writing_env : Env
writing_env = record env { listeners = λ e w. set_property w "seen" "yes" }

check_storage_changed-reported_example :
    (reported (check_storage_changed writing_env wrapper)
      ≡ reported wrapper ++ changes_since wrapper.last_state wrapper.own)
    × ((check_storage_changed writing_env wrapper).last_state
        ≡ (check_storage_changed writing_env wrapper).own)
    × (NoWrites writing_env → (check_storage_changed writing_env wrapper).last_state ≡ wrapper.own)
unfolding set_property
check_storage_changed-reported_example =
    check_storage_changed-reported writing_env wrapper (λ e w. refl)

check_storage_changed-restore_example :
    ((restore env wrapper "saved").own ≡ state_to_load env wrapper "saved")
    × (reported (check_storage_changed env (restore env wrapper "saved"))
        ≡ reported (restore env wrapper "saved"))
unfolding lookup state_to_load
check_storage_changed-restore_example =
    check_storage_changed-restore env wrapper "saved" (refl, (refl, tt))

-- The wrapper of another page on the same native storage, with other items.
abbrev other_page : StorageWrapper
other_page = record {
  own = before;
  win = 2;
  ctx = 2;
  last_state = before;
  native_storage = ("hammerhead|storage-wrapper|host", "text") ∷ [];
  native_storage_key = "hammerhead|storage-wrapper|host";
  emitted = [];
}

restore-save_to_native_storage_example : (restore env other_page "").own ≡ wrapper.own
unfolding save_to_native_storage lookup insert
restore-save_to_native_storage_example =
    restore-save_to_native_storage env wrapper other_page refl refl (refl, (refl, tt)) refl refl
