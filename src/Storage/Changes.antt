-- ===== src/Storage/Changes.antt =====
-- What `checkStorageChanged` reports.
use testcafe_hammerhead.Common.{
  String, ◌≡◌, refl, Option, none, some, List, [], ◌∷◌, map, arith, str_eq, eq_iff, opt_str_eq,
  if◌then◌else◌, Bool-cases, inl, inr,
}
use testcafe_hammerhead.Common.Assoc.{lookup}
use testcafe_hammerhead.Storage.{Value, StorageState, Change, added, splice_key, changes_since}

-- No key twice, as in the own properties of an object.
abbrev pub DistinctKeys : StorageState → Type 0
DistinctKeys [] = Unit
DistinctKeys ((k, v) ∷ s) = (lookup k s ≡ none) × DistinctKeys s

-- The changes of one key.
unfoldable pub changes_of : String → List Change → List Change
changes_of k [] = []
changes_of k (c ∷ cs) = if str_eq c.key k then c ∷ changes_of k cs else changes_of k cs

-- What should be reported of a key: the two values, if they differ.
abbrev pub difference : String → Option Value → Option Value → List Change
difference k none none = []
difference k (some old) (some new) =
    if opt_str_eq new old
    then []
    else record { key = k; old_value = some old; new_value = some new } ∷ []
difference k old new = record { key = k; old_value = old; new_value = new } ∷ []

lookup-splice_key :
    (k j : String) (s : StorageState)
    → DistinctKeys s
    → lookup j (splice_key k s) ≡ (if str_eq k j then none else lookup j s)
unfolding lookup splice_key
lookup-splice_key k j [] h = ground arith
lookup-splice_key k j ((i, v) ∷ s) h =
    ground (arith, lookup-splice_key k j s h.1, eq_iff i k, eq_iff i j, eq_iff k j)

splice_key-DistinctKeys :
    (k : String) (s : StorageState) → DistinctKeys s → DistinctKeys (splice_key k s)
unfolding lookup splice_key
splice_key-DistinctKeys k [] h = tt
splice_key-DistinctKeys k ((i, v) ∷ s) h = elim (Bool-cases (str_eq i k)) [
  | inl e ↦ rw e h.1
  | inr e ↦ rw e ((ground (arith, lookup-splice_key k i s h.1)), splice_key-DistinctKeys k s h.1)
]

changes_of-added :
    (k : String) (s : StorageState)
    → DistinctKeys s
    → changes_of k (map added s) ≡ difference k none (lookup k s)
unfolding lookup changes_of
changes_of-added k [] h = refl
changes_of-added k ((i, v) ∷ s) h = ground (arith, changes_of-added k s h.1, eq_iff i k)

-- For states of distinct keys, the report of each key is the difference of its values in the two
-- states.
pub changes_of-changes_since :
    (k : String) (last current : StorageState)
    → DistinctKeys last
    → DistinctKeys current
    → changes_of k (changes_since last current) ≡ difference k (lookup k last) (lookup k current)
unfolding changes_of changes_since
changes_of-changes_since k [] current h d = changes_of-added k current d
changes_of-changes_since k ((i, v) ∷ last) current h d = ground (
  arith,
  changes_of-changes_since k last current h.1 d,
  changes_of-changes_since k last (splice_key i current) h.1 (splice_key-DistinctKeys i current d),
  lookup-splice_key i k current d,
  eq_iff i k,
)
