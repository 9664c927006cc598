-- ===== src/Routing/Entries.antt =====
-- app/routing.py: the rates of a table, and how a candidate is compared with the entry of its currency.
use netaro_settlement_router.Prelude.{
  All, ◌≡◌, refl, sym, ◌∙◌, subst, inl, inr, true, false, none, some, List, [], ◌∷◌, Memᴰ,
  Bool-cases, arith, exists, exists-of_mem, Option, Bool, ◌||◌,
}
use netaro_settlement_router.Prelude.Int.{◌-ℤ◌}
use netaro_settlement_router.Decimal.{
  Decimal, finite, infinite, nan, mul, one, routing_prec, lt, le, eq,
}
use netaro_settlement_router.Decimal.Order.{IsUnsigned, le_of_lt, le_of_not_lt, mul-IsUnsigned}
use netaro_settlement_router.Routing.Types.{
  Currency, same_currency, same_currency_iff, Edge, RouteHop,
}
use netaro_settlement_router.Routing.{
  Candidate, Best, is_better, is_valid_rate, find, put, improves,
}
use netaro_settlement_router.Routing.Paths.{IsRoute, IsOffered, product_from}

pub is_valid_rate-IsUnsigned : (d : Decimal) → is_valid_rate d ≡ true → IsUnsigned d
unfolding le ◌-ℤ◌
is_valid_rate-IsUnsigned (finite false c e) h = (c, e, refl)
is_valid_rate-IsUnsigned (finite true c e) h = ground arith
is_valid_rate-IsUnsigned (infinite s) h = cc
is_valid_rate-IsUnsigned nan h = cc

product_from-IsUnsigned :
    (edges : List Edge) (rate : Decimal) (hops : List RouteHop)
    → IsUnsigned rate
    → All (IsOffered edges) hops
    → IsUnsigned (product_from rate hops)
product_from-IsUnsigned edges rate [] u o = u
product_from-IsUnsigned edges rate (h ∷ hops) u ((e, m, valid, same), o) =
    product_from-IsUnsigned edges (mul routing_prec rate h.rate) hops
      (mul-IsUnsigned routing_prec rate h.rate u (
        subst (λ (x : RouteHop). IsUnsigned x.rate) (sym same)
          (is_valid_rate-IsUnsigned e.rate valid)))
      o

pub IsRoute-IsUnsigned :
    (edges : List Edge) (source c : Currency) (candidate : Candidate)
    → IsRoute edges source c candidate
    → IsUnsigned candidate.0
IsRoute-IsUnsigned edges source c candidate r =
    subst IsUnsigned (sym r.is_product)
      (product_from-IsUnsigned edges one candidate.1 (_, _, refl) r.offered)

pub find-put_same : (c : Currency) (x : Candidate) (best : Best) → find c (put c x best) ≡ some x
find-put_same c x [] = rw ((same_currency_iff c c).1 refl) refl
find-put_same c x ((d, old) ∷ best) = elim (Bool-cases (same_currency d c)) [
  | inl same ↦ rw (same, same) refl
  | inr differs ↦ rw (differs, differs) (find-put_same c x best)
]

find-put_other :
    (c d : Currency) (x : Candidate) (best : Best)
    → same_currency c d ≡ false
    → find d (put c x best) ≡ find d best
find-put_other c d x [] h = rw h refl
find-put_other c d x ((k, old) ∷ best) h = elim (Bool-cases (same_currency k c)) [
  | inl same ↦
      let apart : same_currency k d ≡ false =
        subst (λ m. same_currency m d ≡ false) (sym ((same_currency_iff k c).0 same)) h in
      rw (same, apart) refl
  | inr differs ↦ elim (Bool-cases (same_currency k d)) [
    | inl here ↦ rw (differs, here) refl
    | inr apart ↦ rw (differs, apart) (find-put_other c d x best h)
  ]
]

-- The table has a rate for the currency that is not below this one.
abbrev pub AtLeast : Decimal → Currency → Best → Type 0
AtLeast rate c best = (x : Candidate) × (find c best ≡ some x) × (le rate x.0 ≡ true)

pub put-AtLeast :
    (rate : Decimal) (c d : Currency) (x : Candidate) (best : Best)
    → AtLeast rate c best
    → (same_currency d c ≡ true → le rate x.0 ≡ true)
    → AtLeast rate c (put d x best)
put-AtLeast rate c d x best (y, at, above) better = elim (Bool-cases (same_currency d c)) [
  | inl same ↦
      subst (λ k. AtLeast rate c (put k x best)) (sym ((same_currency_iff d c).0 same))
        (x, find-put_same c x best, better same)
  | inr differs ↦ (y, find-put_other d c x best differs ∙ at, above)
]

-- A better candidate has no smaller rate, and the rate of one that is not better is no greater.
pub is_better-le :
    (x y : Candidate)
    → IsUnsigned x.0
    → IsUnsigned y.0
    → is_better x (some y) ≡ true
    → le y.0 x.0 ≡ true
unfolding is_better eq
is_better-le x y ux uy h = elim (Bool-cases (lt y.0 x.0)) [
  | inl below ↦ le_of_lt y.0 x.0 uy ux below
  | inr above ↦ ground (arith, rw above at h)
]

pub not_is_better-le :
    (x y : Candidate)
    → IsUnsigned x.0
    → IsUnsigned y.0
    → is_better x (some y) ≡ false
    → le x.0 y.0 ≡ true
unfolding is_better
not_is_better-le x y ux uy h = le_of_not_lt y.0 x.0 uy ux (not_below (lt y.0 x.0) _ h)
  where
    not_below : (b c : Bool) → (b || c) ≡ false → b ≡ false
    not_below true c h = h
    not_below false c h = refl

pub first_is_better : (x : Candidate) → ¬ (is_better x none ≡ false)
unfolding is_better
first_is_better x h = ground arith

pub find-mem :
    (c : Currency) (best : Best) (x : Candidate) → find c best ≡ some x → Memᴰ (c, x) best
find-mem c [] x h = cc
find-mem c ((d, old) ∷ best) x h = elim (Bool-cases (same_currency d c)) [
  | inl same ↦ Memᴰ.head (cc ((same_currency_iff d c).0 same, rw same at h))
  | inr differs ↦ Memᴰ.tail (find-mem c best x (rw differs at h))
]

pub not_exists {ℓ} :
    {A : Type ℓ} (p : A → Bool) (xs : List A) {a : A}
    → exists p xs ≡ false
    → Memᴰ a xs
    → p a ≡ false
not_exists p xs {a} h m = elim (Bool-cases (p a)) [
  | inl passes ↦ cc (exists-of_mem p xs m passes, h)
  | inr fails ↦ fails
]

pub not_improved :
    (best : Best) (c : Currency) (x : Candidate)
    → improves best (c, x) ≡ false
    → (current : Candidate) × (find c best ≡ some current) × (lt current.0 x.0 ≡ false)
not_improved best c x h = found (find c best) refl h
  where
    found :
        (o : Option Candidate)
        → find c best ≡ o
        → elim o [ none ↦ true | some current ↦ lt current.0 x.0 ] ≡ false
        → (current : Candidate) × (find c best ≡ some current) × (lt current.0 x.0 ≡ false)
    found none e h = cc
    found (some current) e h = (current, e, h)
