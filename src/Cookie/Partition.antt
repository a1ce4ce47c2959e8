-- ===== src/Cookie/Partition.antt =====
-- How `sortByOutdatedAndActual` splits the cookies.
pub mod Settle
use mathlib.Core.List.{Perm, perm_middle}
use mathlib.Core.List.Perm
use mathlib.Core.Option
use testcafe_hammerhead.Common.{
  ℕ, zero, suc, ◌≡◌, refl, ap, Bool-cases, Bool, true, false, Option, none, some, List, [], ◌∷◌,
  ◌++◌, ◌⊎◌, inl, inr, ◌↔◌, All, All-In, In, ◌≤◌, length, arith, eq_iff,
}
use testcafe_hammerhead.Common.Int.{ℤ}
use Settle.{
  SameCookie, SameCookie-trans, IsDated, NotNewer, NotNewer-trans, later_irrefl, Answer,
  settle-Answer, Found, Found-perm, Found-length, Found-newer, Found-All, Found-In,
}
use testcafe_hammerhead.Cookie.{
  place, Date, invalid, at, later, CookieRecord, is_same_cookies, ParsedClientSyncCookie,
  order_pair, keep, settle, sort_rounds, sort_by_outdated_and_actual,
}

abbrev all_of_them : ParsedClientSyncCookie → List CookieRecord
all_of_them p = p.outdated ++ p.actual

-- One round, whatever the inner loop answered, over what the rest of the loop guarantees.
module _ (sort : List CookieRecord → ParsedClientSyncCookie) (n : ℕ) where
  place-perm :
      (c : CookieRecord) (cs : List CookieRecord) (r : Option (CookieRecord × List CookieRecord))
      → Answer c cs r
      → length cs ≤ n
      → ((l : List CookieRecord) → length l ≤ n → Perm (all_of_them (sort l)) l)
      → Perm (all_of_them (place sort c cs r)) (c ∷ cs)
  unfolding Answer place
  place-perm c cs none a fits ih =
      Perm.trans (perm_middle (sort cs).outdated (sort cs).actual) (Perm.cons c (ih cs fits))
  place-perm c cs (some (o, rest)) f fits ih =
      Perm.trans (Perm.cons o (ih rest (omega (arith, Found-length f)))) (Found-perm f)

  place-All :
      (P : CookieRecord → Type 0) (c : CookieRecord) (cs : List CookieRecord)
      (r : Option (CookieRecord × List CookieRecord))
      → Answer c cs r
      → ((l : List CookieRecord) → All P l → All P (sort l).actual)
      → P c
      → All P cs
      → All P (place sort c cs r).actual
  unfolding Answer place
  place-All P c cs none a ih p h = (p, ih cs h)
  place-All P c cs (some (o, rest)) f ih p h = ih rest (Found-All P f p h).1

  place-newest :
      (c : CookieRecord) (cs : List CookieRecord) (r : Option (CookieRecord × List CookieRecord))
      → Answer c cs r
      → length cs ≤ n
      → All IsDated (c ∷ cs)
      → ((l : List CookieRecord)
          → length l ≤ n
          → All IsDated l
          → (e : CookieRecord) → In e l
          → (a : CookieRecord) × In a (sort l).actual × SameCookie e a × NotNewer e a)
      → (e : CookieRecord) → In e (c ∷ cs)
      → (a : CookieRecord) × In a (place sort c cs r).actual × SameCookie e a × NotNewer e a
  unfolding Answer place
  place-newest c cs none a fits dated ih e (inl m) =
      (c, inl refl, ground arith, rw m (later_irrefl c.last_accessed))
  place-newest c cs none a fits dated ih e (inr m) =
      let (x, k, s, t) = ih cs fits dated.1 e m in (x, inr k, s, t)
  place-newest c cs (some (o, rest)) f fits dated ih e m = go (Found-In f e m)
    where
      left : All IsDated rest
      left = (Found-All IsDated f dated.0 dated.1).1

      short : length rest ≤ n
      short = omega (arith, Found-length f)

      go :
          In e (o ∷ rest)
          → (a : CookieRecord) × In a (sort rest).actual × SameCookie e a × NotNewer e a
      go (inl m) =
          let (d, k, s, t) = Found-newer f in
          let (x, j, u, v) = ih rest short left d k in
          (
            x,
            j,
            rw m (SameCookie-trans o d x s u),
            rw m (NotNewer-trans o d x (All-In IsDated rest d left k) t v),
          )
      go (inr m) = ih rest short left e m

abbrev pub Distinct : List CookieRecord → Type 0
Distinct [] = Unit
Distinct (c ∷ cs) = All (λ d. ¬ SameCookie c d) cs × Distinct cs

module _ (n : ℕ) (ih : (l : List CookieRecord) → Distinct (sort_rounds n l).actual) where
  place-Distinct :
      (c : CookieRecord) (cs : List CookieRecord) (r : Option (CookieRecord × List CookieRecord))
      → Answer c cs r
      → ((P : CookieRecord → Type 0) (l : List CookieRecord)
          → All P l
          → All P (sort_rounds n l).actual)
      → Distinct (place (sort_rounds n) c cs r).actual
  unfolding Answer place
  place-Distinct c cs none a keeps = (keeps (λ d. ¬ SameCookie c d) cs a, ih cs)
  place-Distinct c cs (some (o, rest)) f keeps = ih rest

-- The whole loop: as many rounds as there are cookies are enough.
sort_rounds-perm :
    (n : ℕ) (cs : List CookieRecord) → length cs ≤ n → Perm (all_of_them (sort_rounds n cs)) cs
unfolding sort_rounds
sort_rounds-perm zero [] h = Perm.refl []
sort_rounds-perm zero (c ∷ cs) h = absurd (omega arith)
sort_rounds-perm (suc n) [] h = Perm.refl []
sort_rounds-perm (suc n) (c ∷ cs) h =
    place-perm (sort_rounds n) n c cs (settle c cs) (settle-Answer c cs) (omega arith)
      (sort_rounds-perm n)

sort_rounds-All :
    (n : ℕ) (P : CookieRecord → Type 0) (cs : List CookieRecord)
    → All P cs
    → All P (sort_rounds n cs).actual
unfolding sort_rounds
sort_rounds-All zero P cs h = tt
sort_rounds-All (suc n) P [] h = tt
sort_rounds-All (suc n) P (c ∷ cs) h =
    place-All (sort_rounds n) n P c cs (settle c cs) (settle-Answer c cs) (sort_rounds-All n P) h.0
      h.1

sort_rounds-Distinct : (n : ℕ) (cs : List CookieRecord) → Distinct (sort_rounds n cs).actual
unfolding sort_rounds
sort_rounds-Distinct zero cs = tt
sort_rounds-Distinct (suc n) [] = tt
sort_rounds-Distinct (suc n) (c ∷ cs) =
    place-Distinct n (sort_rounds-Distinct n) c cs (settle c cs) (settle-Answer c cs)
      (sort_rounds-All n)

sort_rounds-newest :
    (n : ℕ) (cs : List CookieRecord)
    → length cs ≤ n
    → All IsDated cs
    → (e : CookieRecord) → In e cs
    → (a : CookieRecord) × In a (sort_rounds n cs).actual × SameCookie e a × NotNewer e a
unfolding sort_rounds
sort_rounds-newest n [] h dated e m = absurd m
sort_rounds-newest zero (c ∷ cs) h dated e m = absurd (omega arith)
sort_rounds-newest (suc n) (c ∷ cs) h dated e m =
    place-newest (sort_rounds n) n c cs (settle c cs) (settle-Answer c cs) (omega arith) dated
      (sort_rounds-newest n) e m

-- The outdated and the actual cookies together are the given ones, each as often as it was given.
pub sort_by_outdated_and_actual-perm :
    (cs : List CookieRecord)
    → Perm ((sort_by_outdated_and_actual cs).outdated ++ (sort_by_outdated_and_actual cs).actual) cs
unfolding sort_by_outdated_and_actual
sort_by_outdated_and_actual-perm cs = sort_rounds-perm (length cs) cs (omega arith)

-- If all given cookies have a time: no two actual cookies have the same session, key, domain and
-- path, and every given cookie has a record of itself among the actual ones that is not older.
pub sort_by_outdated_and_actual-newest :
    (cs : List CookieRecord)
    → All IsDated cs
    → Distinct (sort_by_outdated_and_actual cs).actual
      × ((e : CookieRecord)
          → In e cs
          → (a : CookieRecord) × In a (sort_by_outdated_and_actual cs).actual
            × SameCookie e a
            × NotNewer e a)
unfolding sort_by_outdated_and_actual
sort_by_outdated_and_actual-newest cs dated =
    (sort_rounds-Distinct (length cs) cs, sort_rounds-newest (length cs) cs (omega arith) dated)
