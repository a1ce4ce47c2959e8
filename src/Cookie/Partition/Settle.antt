-- ===== src/Cookie/Partition/Settle.antt =====
-- The inner loop of `sortByOutdatedAndActual`: what its answers mean for the array.
use mathlib.Core.List.{Perm}
use mathlib.Core.List.Perm
use mathlib.Core.Option
use testcafe_hammerhead.Common.{
  suc, ◌≡◌, refl, ap, Bool-cases, true, false, Option, none, some, List, [], ◌∷◌, inl, inr, ◌↔◌,
  All, In, length, arith, eq_iff,
}
use testcafe_hammerhead.Common.Int.{ℤ}
use testcafe_hammerhead.Cookie.{
  Date, invalid, at, later, CookieRecord, is_same_cookies, keep, settle,
}

-- Two records of one cookie.
pub record SameCookie (c d : CookieRecord) : Type 0 where
  pub sid : c.sid ≡ d.sid
  pub key : c.key ≡ d.key
  pub domain : c.domain ≡ d.domain
  pub path : c.path ≡ d.path

pub is_same_cookies_iff : (c d : CookieRecord) → (is_same_cookies c d ≡ true) ↔ SameCookie c d
unfolding is_same_cookies
is_same_cookies_iff c d =
    ground (
      arith,
      eq_iff c.sid d.sid,
      eq_iff c.key d.key,
      eq_iff c.domain d.domain,
      eq_iff c.path d.path,
    )

pub SameCookie-trans : (c d e : CookieRecord) → SameCookie c d → SameCookie d e → SameCookie c e
SameCookie-trans c d e p q = ground arith

-- The cookie has a time, and `c` is not newer than `d`.
abbrev pub IsDated : CookieRecord → Type 0
IsDated c = (t : ℤ) × (c.last_accessed ≡ at t)

abbrev pub NotNewer : CookieRecord → CookieRecord → Type 0
NotNewer c d = later c.last_accessed d.last_accessed ≡ false

pub later_trans :
    (a b c : Date) → (t : ℤ) → b ≡ at t → later a b ≡ false → later b c ≡ false → later a c ≡ false
later_trans (at a) (at b) (at c) t e p q = ground arith
later_trans invalid b c t e p q = refl
later_trans (at a) (at b) invalid t e p q = refl
later_trans (at a) invalid c t e p q = cc

pub NotNewer-trans : (c d e : CookieRecord) → IsDated d → NotNewer c d → NotNewer d e → NotNewer c e
NotNewer-trans c d e dated =
    later_trans c.last_accessed d.last_accessed e.last_accessed dated.0 dated.1

pub later_asymm : (a b : Date) → later a b ≡ true → later b a ≡ false
later_asymm (at a) (at b) p = ground arith
later_asymm invalid invalid p = refl
later_asymm (at a) invalid p = refl
later_asymm invalid (at b) p = refl

pub later_irrefl : (a : Date) → later a a ≡ false
later_irrefl invalid = refl
later_irrefl (at a) = ground arith

-- The answers of the inner loop: the outdated cookie and the array that is left.
pub data Found (c : CookieRecord)
    : List CookieRecord → CookieRecord → List CookieRecord → Type 0 where
  swapped :
      (d : CookieRecord) (ds : List CookieRecord)
      → SameCookie c d
      → later c.last_accessed d.last_accessed ≡ true
      → Found c (d ∷ ds) d (c ∷ ds)
  kept :
      (d : CookieRecord) (ds : List CookieRecord)
      → SameCookie c d
      → later c.last_accessed d.last_accessed ≡ false
      → Found c (d ∷ ds) c (d ∷ ds)
  further :
      (d : CookieRecord) (ds rest : List CookieRecord) (o : CookieRecord)
      → Found c ds o rest
      → Found c (d ∷ ds) o (d ∷ rest)

unfoldable pub Answer :
    CookieRecord → List CookieRecord → Option (CookieRecord × List CookieRecord) → Type 0
Answer c cs none = All (λ d. ¬ SameCookie c d) cs
Answer c cs (some (o, rest)) = Found c cs o rest

pub Answer-keep :
    (c d : CookieRecord) (ds : List CookieRecord) (r : Option (CookieRecord × List CookieRecord))
    → ¬ SameCookie c d
    → Answer c ds r
    → Answer c (d ∷ ds) (Option.map (keep d) r)
unfolding Answer
Answer-keep c d ds none n h = (n, h)
Answer-keep c d ds (some (o, rest)) n h = further d ds rest o h

pub settle-Answer : (c : CookieRecord) (cs : List CookieRecord) → Answer c cs (settle c cs)
unfolding Answer settle
settle-Answer c [] = tt
settle-Answer c (d ∷ ds) = elim (Bool-cases (is_same_cookies c d)) [
  | inl same ↦ rw same (elim (Bool-cases (later c.last_accessed d.last_accessed)) [
    | inl l ↦ rw l (swapped d ds ((is_same_cookies_iff c d).0 same) l)
    | inr l ↦ rw l (kept d ds ((is_same_cookies_iff c d).0 same) l)
  ])
  | inr other ↦ rw other (
      Answer-keep c d ds (settle c ds) (λ s. cc (other, (is_same_cookies_iff c d).1 s))
        (settle-Answer c ds))
]

pub Found-perm :
    {c : CookieRecord} {cs : List CookieRecord} {o : CookieRecord} {rest : List CookieRecord}
    → Found c cs o rest
    → Perm (o ∷ rest) (c ∷ cs)
Found-perm {c} (swapped d ds same l) = Perm.swap c d ds
Found-perm {c} (kept d ds same l) = Perm.refl (c ∷ d ∷ ds)
Found-perm {c} (further d ds rest o f) =
    Perm.trans (Perm.swap d o rest) (Perm.trans (Perm.cons d (Found-perm f)) (Perm.swap c d ds))

pub Found-length :
    {c : CookieRecord} {cs : List CookieRecord} {o : CookieRecord} {rest : List CookieRecord}
    → Found c cs o rest
    → length rest ≡ length cs
Found-length (swapped d ds same l) = refl
Found-length (kept d ds same l) = refl
Found-length (further d ds rest o f) = ap suc (Found-length f)

-- The outdated cookie has a newer record of itself in what is left.
pub Found-newer :
    {c : CookieRecord} {cs : List CookieRecord} {o : CookieRecord} {rest : List CookieRecord}
    → Found c cs o rest
    → (d : CookieRecord) × In d rest × SameCookie o d × NotNewer o d
Found-newer {c} (swapped d ds same l) =
    (c, inl refl, ground arith, later_asymm c.last_accessed d.last_accessed l)
Found-newer {c} (kept d ds same l) = (d, inl refl, same, l)
Found-newer (further d ds rest o f) = let (e, m, s, n) = Found-newer f in (e, inr m, s, n)

pub Found-All :
    (P : CookieRecord → Type 0) {c : CookieRecord} {cs : List CookieRecord} {o : CookieRecord}
    {rest : List CookieRecord}
    → Found c cs o rest
    → P c
    → All P cs
    → P o × All P rest
Found-All P (swapped d ds same l) p (q, h) = (q, (p, h))
Found-All P (kept d ds same l) p (q, h) = (p, (q, h))
Found-All P (further d ds rest o f) p (q, h) = let (r, hs) = Found-All P f p h in (r, (q, hs))

pub Found-In :
    {c : CookieRecord} {cs : List CookieRecord} {o : CookieRecord} {rest : List CookieRecord}
    → Found c cs o rest
    → (e : CookieRecord) → In e (c ∷ cs)
    → In e (o ∷ rest)
Found-In (swapped d ds same l) e m = ground arith
Found-In (kept d ds same l) e m = m
Found-In (further d ds rest o f) e (inl m) = ground (arith, Found-In f e (inl m))
Found-In (further d ds rest o f) e (inr (inl m)) = inr (inl m)
Found-In (further d ds rest o f) e (inr (inr m)) = ground (arith, Found-In f e (inr m))
