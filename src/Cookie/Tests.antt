-- ===== src/Cookie/Tests.antt =====
-- Runs of utils/cookie.ts at concrete cookies.
use mathlib.Core.List.{Perm}
use testcafe_hammerhead.Common.{◌≡◌, refl, true, false, none, some, List, [], ◌∷◌, ◌++◌, String, In}
use testcafe_hammerhead.Common.Int.{pos}
use testcafe_hammerhead.Cookie.{
  Date, at, invalid, null, CookieRecord, SyncFlags, sort_by_outdated_and_actual, change_sync_type,
}
use testcafe_hammerhead.Cookie.Partition.{
  Distinct, sort_by_outdated_and_actual-perm, sort_by_outdated_and_actual-newest,
}
use testcafe_hammerhead.Cookie.Partition.Settle.{SameCookie, NotNewer}

abbrev cookie : String → Date → CookieRecord
cookie key time = record {
  sid = "s1";
  key = key;
  domain = "example.com";
  path = "/";
  expires = none;
  max_age = null;
  last_accessed = time;
  sync_key = some "cw|s1|a";
  cookie_str = some "cw|s1|a=1";
  value = some "1";
  is_server_sync = some false;
  is_client_sync = some true;
  is_window_sync = some true;
}

abbrev three : List CookieRecord
three = cookie "a" (at (pos 5)) ∷ cookie "b" (at (pos 1)) ∷ cookie "a" (at (pos 3)) ∷ []

sort_three : sort_by_outdated_and_actual three ≡ record {
  outdated = cookie "a" (at (pos 3)) ∷ [];
  actual = cookie "b" (at (pos 1)) ∷ cookie "a" (at (pos 5)) ∷ [];
}
unfolding sort_by_outdated_and_actual
sort_three = refl

sort_by_outdated_and_actual-perm_example :
    Perm
      ((sort_by_outdated_and_actual three).outdated ++ (sort_by_outdated_and_actual three).actual)
      three
sort_by_outdated_and_actual-perm_example = sort_by_outdated_and_actual-perm three

sort_by_outdated_and_actual-newest_example :
    Distinct (sort_by_outdated_and_actual three).actual
    × ((e : CookieRecord)
        → In e three
        → (a : CookieRecord) × In a (sort_by_outdated_and_actual three).actual
          × SameCookie e a
          × NotNewer e a)
sort_by_outdated_and_actual-newest_example =
    sort_by_outdated_and_actual-newest three ((pos 5, refl), ((pos 1, refl), ((pos 3, refl), tt)))

abbrev no_window : SyncFlags
no_window = record { server = none; client = none; window = some false }

without_window : (change_sync_type (cookie "a" invalid) no_window).sync_key ≡ some "c|s1|a"
unfolding change_sync_type
without_window = refl
