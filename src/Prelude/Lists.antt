-- ===== src/Prelude/Lists.antt =====
-- Lists measured by native numbers, and selection by a Boolean test.
use Prim.Native.Nat.{ℕ, zero, suc}
use mathlib.Core.Path.{◌≡◌, refl, sym, subst}
use mathlib.Core.Logic.{inl, inr}
use mathlib.Core.Bool.{Bool, true, false}
use mathlib.Core.List.{List, [], ◌∷◌, ◌++◌, Memᴰ}
use mathlib.Core.List.Memᴰ
use native.Mathlib.Omega.{arith}
use mathlib.Core.Option.{Option, none, some}
use netaro_settlement_router.Prelude.Tests.{if◌then◌else◌, Bool-cases}

module _ {ℓ} {A : Type ℓ} where
  abbrev pub length : List A → ℕ
  length [] = 0
  length (x ∷ xs) = suc (length xs)

  abbrev pub take : ℕ → List A → List A
  take zero xs = []
  take (suc n) [] = []
  take (suc n) (x ∷ xs) = x ∷ take n xs

  abbrev pub get_elem? : List A → ℕ → Option A
  get_elem? [] i = none
  get_elem? (x ∷ xs) zero = some x
  get_elem? (x ∷ xs) (suc i) = get_elem? xs i

  -- A write out of bounds changes nothing.
  abbrev pub set : List A → ℕ → A → List A
  set [] i v = []
  set (x ∷ xs) zero v = v ∷ xs
  set (x ∷ xs) (suc i) v = x ∷ set xs i v

  abbrev pub remove : List A → ℕ → List A
  remove [] i = []
  remove (x ∷ xs) zero = xs
  remove (x ∷ xs) (suc i) = x ∷ remove xs i

  -- The rows that pass a test, in order.
  abbrev pub select : (A → Bool) → List A → List A
  select p [] = []
  select p (x ∷ xs) = let rest = select p xs in if p x then x ∷ rest else rest

  -- Some element passes the test.
  abbrev pub exists : (A → Bool) → List A → Bool
  exists p [] = false
  exists p (x ∷ xs) = if p x then true else exists p xs

  pub select-append :
      (p : A → Bool) (xs ys : List A) → select p (xs ++ ys) ≡ select p xs ++ select p ys
  select-append p [] ys = refl
  select-append p (x ∷ xs) ys = ground (arith, select-append p xs ys)

  pub select-insert_none :
      (p : A → Bool) (xs : List A) (x : A) → p x ≡ false → select p (xs ++ x ∷ []) ≡ select p xs
  select-insert_none p [] x h = rw h refl
  select-insert_none p (y ∷ ys) x h = ground (arith, select-insert_none p ys x h)

  -- A row that fails the test may be changed into another, or removed.
  pub select-set_none :
      (p : A → Bool) (xs : List A) (i : ℕ) (x y : A)
      → get_elem? xs i ≡ some x
      → p x ≡ false
      → p y ≡ false
      → select p (set xs i y) ≡ select p xs
  select-set_none p [] i x y found h k = cc
  select-set_none p (z ∷ zs) zero x y found h k = ground arith
  select-set_none p (z ∷ zs) (suc i) x y found h k =
      ground (arith, select-set_none p zs i x y found h k)

  pub select-remove_none :
      (p : A → Bool) (xs : List A) (i : ℕ) (x : A)
      → get_elem? xs i ≡ some x
      → p x ≡ false
      → select p (remove xs i) ≡ select p xs
  select-remove_none p [] i x found h = cc
  select-remove_none p (z ∷ zs) zero x found h = ground arith
  select-remove_none p (z ∷ zs) (suc i) x found h =
      ground (arith, select-remove_none p zs i x found h)

  pub mem_of_mem-select :
      (p : A → Bool) {a : A} (xs : List A) → Memᴰ a (select p xs) → Memᴰ a xs × (p a ≡ true)
  mem_of_mem-select p [] m = elim m [ ]
  mem_of_mem-select p {a} (x ∷ xs) m = elim (Bool-cases (p x)) [
    | inl passes ↦ elim (Memᴰ.cases_cons (rw passes at m)) [
      | inl e ↦ (Memᴰ.head e, rw e passes)
      | inr later ↦ let (in_xs, ok) = mem_of_mem-select p xs later in (Memᴰ.tail in_xs, ok)
    ]
    | inr fails ↦ let (in_xs, ok) = mem_of_mem-select p xs (rw fails at m) in (Memᴰ.tail in_xs, ok)
  ]

  pub mem-select :
      (p : A → Bool) {a : A} (xs : List A) → Memᴰ a xs → p a ≡ true → Memᴰ a (select p xs)
  mem-select p [] m h = elim m [ ]
  mem-select p {a} (x ∷ xs) (Memᴰ.head e) h =
      let passes : p x ≡ true = rw (← e) h in rw passes (Memᴰ.head e)
  mem-select p (x ∷ xs) (Memᴰ.tail m) h = elim (Bool-cases (p x)) [
    | inl passes ↦ rw passes (Memᴰ.tail (mem-select p xs m h))
    | inr fails ↦ rw fails (mem-select p xs m h)
  ]

  pub exists-of_mem :
      (p : A → Bool) {a : A} (xs : List A) → Memᴰ a xs → p a ≡ true → exists p xs ≡ true
  exists-of_mem p [] m h = elim m [ ]
  exists-of_mem p (x ∷ xs) (Memᴰ.head e) h = let passes : p x ≡ true = rw (← e) h in rw passes
  exists-of_mem p (x ∷ xs) (Memᴰ.tail m) h = ground (arith, exists-of_mem p xs m h)

  pub mem_of_exists :
      (p : A → Bool) (xs : List A) → exists p xs ≡ true → (a : A) × Memᴰ a xs × (p a ≡ true)
  mem_of_exists p [] h = cc
  mem_of_exists p (x ∷ xs) h = elim (Bool-cases (p x)) [
    | inl passes ↦ (x, Memᴰ.head refl, passes)
    | inr fails ↦ let (a, m, ok) = mem_of_exists p xs (rw fails at h) in (a, Memᴰ.tail m, ok)
  ]

-- Every element satisfies P.
abbrev pub All {ℓ κ} : {A : Type ℓ} → (A → Type κ) → List A → Type κ
All P [] = Unit
All P (x ∷ xs) = P x × All P xs

pub each {ℓ κ} : {A : Type ℓ} (P : A → Type κ) (xs : List A) → All P xs → (a : A) → Memᴰ a xs → P a
each P [] h a m = elim m [ ]
each P (x ∷ xs) h a (Memᴰ.head p) = subst P (sym p) h.0
each P (x ∷ xs) h a (Memᴰ.tail m) = each P xs h.1 a m

pub each-All {ℓ κ} :
    {A : Type ℓ} (P : A → Type κ) (xs : List A) → ((a : A) → Memᴰ a xs → P a) → All P xs
each-All P [] h = tt
each-All P (x ∷ xs) h = (h x (Memᴰ.head refl), each-All P xs (λ a m. h a (Memᴰ.tail m)))

pub All-append {ℓ κ} :
    {A : Type ℓ} (P : A → Type κ) (xs ys : List A) → All P xs → All P ys → All P (xs ++ ys)
All-append P [] ys h k = k
All-append P (x ∷ xs) ys h k = (h.0, All-append P xs ys h.1 k)

pub exists_none {ℓ} :
    {A : Type ℓ} (p : A → Bool) (xs : List A)
    → ((a : A) → Memᴰ a xs → p a ≡ false)
    → exists p xs ≡ false
exists_none p [] h = refl
exists_none p (x ∷ xs) h = rw (h x (Memᴰ.head refl)) (exists_none p xs (λ a m. h a (Memᴰ.tail m)))

pub none_exists {ℓ} :
    {A : Type ℓ} (p : A → Bool) (xs : List A)
    → ((a : A) → Memᴰ a xs → p a ≡ true → ⊥)
    → exists p xs ≡ false
none_exists p xs h =
    exists_none p xs
      (λ a m. elim (Bool-cases (p a)) [ inl passes ↦ absurd (h a m passes) | inr fails ↦ fails ])
