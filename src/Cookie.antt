-- ===== src/Cookie.antt =====
-- utils/cookie.ts and the records of typings/cookie.d.ts: the cookies that the server, the client
-- and the windows exchange. An optional property is an `Option`; a `Date` without a time (the
-- result of a number that cannot be parsed) is `invalid`, and no comparison with it holds.
pub mod Partition
pub mod SyncType
mod Tests
use Prim.Native.Char.{Char, code}
use Prim.Native.String
use mathlib.Core.Option
use testcafe_hammerhead.Common.{
  ℕ, zero, suc, String, Bool, true, false, ◌&&◌, ◌||◌, Option, none, some, List, [], ◌∷◌, length,
  str_eq, bool_eq, if◌then◌else◌, ◌==◌,
}
use testcafe_hammerhead.Common.Int.{ℤ, lt_ℤ}

pub data Date : Type 0 where
  invalid : Date
  at : ℤ → Date

-- `a > b` on dates
abbrev pub later : Date → Date → Bool
later (at a) (at b) = lt_ℤ b a
later _ _ = false

pub data MaxAge : Type 0 where
  null infinity minus_infinity : MaxAge
  seconds : ℤ → MaxAge

-- `expires` is `none` for 'Infinity'.
pub record CookieRecord : Type 0 where
  pub sid : String
  pub key : String
  pub domain : String
  pub path : String
  pub expires : Option Date
  pub max_age : MaxAge
  pub last_accessed : Date
  pub sync_key : Option String
  pub cookie_str : Option String
  pub value : Option String
  pub is_server_sync : Option Bool
  pub is_client_sync : Option Bool
  pub is_window_sync : Option Bool

-- `isSameCookies`
unfoldable pub is_same_cookies : CookieRecord → CookieRecord → Bool
is_same_cookies c d =
    str_eq c.sid d.sid && str_eq c.key d.key && str_eq c.domain d.domain && str_eq c.path d.path

pub record ParsedClientSyncCookie : Type 0 where
  pub outdated : List CookieRecord
  pub actual : List CookieRecord

-- The body of the inner loop where the two cookies are the same: the swap by time, after which
-- the cookie at `current` is outdated and the other stays in the array.
abbrev pub order_pair :
    CookieRecord → CookieRecord → List CookieRecord → CookieRecord × List CookieRecord
order_pair current other rest =
    if later current.last_accessed other.last_accessed
    then (other, current ∷ rest)
    else (current, other ∷ rest)

abbrev pub keep : CookieRecord → CookieRecord × List CookieRecord → CookieRecord × List CookieRecord
keep other (o, rest) = (o, other ∷ rest)

-- The inner loop over `other`: `none` when it reaches the end of the array, else the outdated
-- cookie and the array behind `current`.
unfoldable pub settle : CookieRecord → List CookieRecord → Option (CookieRecord × List CookieRecord)
settle current [] = none
settle current (other ∷ rest) =
    if is_same_cookies current other
    then some (order_pair current other rest)
    else Option.map (keep other) (settle current rest)

-- What a round of the outer loop does with the answer of the inner one; `sort` is the rest of the
-- loop.
unfoldable pub place :
    (List CookieRecord → ParsedClientSyncCookie)
    → CookieRecord
    → List CookieRecord
    → Option (CookieRecord × List CookieRecord)
    → ParsedClientSyncCookie
place sort current rest none =
    let tail = sort rest in record tail { actual = current ∷ tail.actual }
place sort current rest (some (o, others)) =
    let tail = sort others in record tail { outdated = o ∷ tail.outdated }

-- The outer loop of `sortByOutdatedAndActual`, by the rounds that are left.
unfoldable pub sort_rounds : ℕ → List CookieRecord → ParsedClientSyncCookie
unfolding place
sort_rounds (suc n) (current ∷ rest) = place (sort_rounds n) current rest (settle current rest)
sort_rounds _ _ = record { outdated = []; actual = [] }

unfoldable pub sort_by_outdated_and_actual : List CookieRecord → ParsedClientSyncCookie
unfolding sort_rounds settle is_same_cookies
sort_by_outdated_and_actual cookies = sort_rounds (length cookies) cookies

abbrev pub flag_eq : Option Bool → Option Bool → Bool
flag_eq none none = true
flag_eq (some a) (some b) = bool_eq a b
flag_eq _ _ = false

unfoldable pub is_outdated_sync_cookie : CookieRecord → CookieRecord → Bool
is_outdated_sync_cookie current new =
    flag_eq new.is_server_sync current.is_server_sync
    && str_eq new.sid current.sid
    && str_eq new.key current.key
    && str_eq new.domain current.domain
    && str_eq new.path current.path
    && later new.last_accessed current.last_accessed

abbrev pub flag_str : Option Bool → String → String
flag_str (some true) s = s
flag_str _ s = ""

-- `stringifySyncType`, with the letters of `SYNCHRONIZATION_TYPE`
unfoldable pub stringify_sync_type : CookieRecord → String
stringify_sync_type c =
    String.◌++◌ (String.◌++◌ (flag_str c.is_server_sync "s") (flag_str c.is_client_sync "c"))
      (flag_str c.is_window_sync "w")

-- The characters of `SYNCHRONIZATION_TYPE_RE`, /^[scw]+/.
abbrev pub is_type_char : Char → Bool
is_type_char c = (code c == b's') || (code c == b'c') || (code c == b'w')

-- The text behind the longest run of such characters.
unfoldable pub drop_type : String → String
drop_type String.[] = ""
drop_type (String.◌∷◌ c s) = if is_type_char c then drop_type s else String.◌∷◌ c s

-- `replace(SYNCHRONIZATION_TYPE_RE, type)`: without a match the text stays.
unfoldable pub replace_type : String → String → String
unfolding drop_type
replace_type type String.[] = ""
replace_type type (String.◌∷◌ c s) =
    if is_type_char c then String.◌++◌ type (drop_type s) else String.◌∷◌ c s

-- The argument of `changeSyncType`; `none` is a property that is not there.
pub record SyncFlags : Type 0 where
  pub server : Option Bool
  pub client : Option Bool
  pub window : Option Bool

abbrev pub override : Option Bool → Option Bool → Option Bool
override none old = old
override (some b) old = some b

unfoldable pub set_flags : CookieRecord → SyncFlags → CookieRecord
set_flags c flags = record c {
  is_server_sync = override flags.server c.is_server_sync;
  is_client_sync = override flags.client c.is_client_sync;
  is_window_sync = override flags.window c.is_window_sync;
}

-- `changeSyncType`; the cookie is changed in place, so the new record is the result.
unfoldable pub change_sync_type : CookieRecord → SyncFlags → CookieRecord
unfolding set_flags replace_type stringify_sync_type
change_sync_type c flags =
    let changed = set_flags c flags in
    let type = stringify_sync_type changed in
    record changed {
      sync_key = Option.map (replace_type type) changed.sync_key;
      cookie_str = Option.map (replace_type type) changed.cookie_str;
    }

-- `generateDeleteSyncCookieStr`; an absent key is printed as JavaScript prints it
unfoldable pub generate_delete_sync_cookie_str : CookieRecord → String
generate_delete_sync_cookie_str c =
    String.◌++◌ (Option.get_or c.sync_key "undefined")
      "=;path=/;expires=Thu, 01 Jan 1970 00:00:01 GMT"
