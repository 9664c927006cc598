-- ===== src/Database.antt =====
-- The tables of the database, the errors that a request can end in, and the actions of a session:
-- they return or raise, and hand on the tables as far as they have been written.
-- `transaction` is `async with session.begin()`: an error rolls back all that the block wrote.
use netaro_settlement_router.Prelude.{
  ℕ, ◌^◌, Bool, Option, none, some, List, ◌≡◌, refl, sym, ap, if◌then◌else◌,
}
use netaro_settlement_router.Models.{
  Account, Settlement, JournalTransaction, Posting, PayoutAttempt,
}

pub record Database : Type 0 where
  pub accounts : List Account
  pub settlements : List Settlement
  pub journals : List JournalTransaction
  pub postings : List Posting
  pub attempts : List PayoutAttempt

-- The constraints that an IntegrityError can name.
pub data Constraint : Type 0 where
  owner_idempotency_key settlement_event account_identity : Constraint
  primary_key check unique_operation : Constraint

pub data Error : Type 0 where
  insufficient_funds missing_account : Error
  idempotency_conflict settlement_not_found stale_attempt_token : Error
  route_not_found payout_timeout numeric_overflow : Error
  assertion_failed runtime_error key_error database_unavailable : Error
  integrity : Constraint → Error

pub data Result {ℓ} (A : Type ℓ) : Type ℓ where
  ok : A → Result A
  err : Error → Result A

-- An action over any state that returns or raises.
abbrev pub Exec {ℓ} : Type 0 → Type ℓ → Type ℓ
Exec S A = S → Result A × S

abbrev pub Session {ℓ} : Type ℓ → Type ℓ
Session = Exec Database

module _ {ℓ} {S : Type 0} {A : Type ℓ} where
  abbrev pub pure : A → Exec S A
  pure a s = (ok a, s)

  abbrev pub raise : Error → Exec S A
  raise e s = (err e, s)

  -- A value computed from the state, or an error.
  abbrev pub reads : (S → Result A) → Exec S A
  reads f s = (f s, s)

  abbrev pub lift : Result A → Exec S A
  lift r s = (r, s)

  abbrev commit_or_rollback : S → Result A × S → Result A × S
  commit_or_rollback before (ok a, after) = (ok a, after)
  commit_or_rollback before (err e, after) = (err e, before)

  abbrev pub transaction : Exec S A → Exec S A
  transaction m s = commit_or_rollback s (m s)

abbrev pub or_raise {ℓ} : {A : Type ℓ} → Option A → Error → Result A
or_raise none e = err e
or_raise (some a) e = ok a

module _ {S : Type 0} where
  abbrev pub writes : (S → S) → Exec S (Unit {0})
  writes f s = (ok tt, f s)

  abbrev pub raise_if : Bool → Error → Exec S (Unit {0})
  raise_if test e s = (if test then err e else ok tt, s)

abbrev pub continue {ℓ κ} :
    {S : Type 0} {A : Type ℓ} {B : Type κ} → Result A × S → (A → Exec S B) → Result B × S
continue (ok a, s) f = f a s
continue (err e, s) f = (err e, s)

infixl 5 ◌>>=◌ ◌>>◌
unfoldable pub ◌>>=◌ {ℓ κ} :
    {S : Type 0} {A : Type ℓ} {B : Type κ} → Exec S A → (A → Exec S B) → Exec S B
◌>>=◌ m f s = continue (m s) f

abbrev pub ◌>>◌ {ℓ} : {S : Type 0} {B : Type ℓ} → Exec S (Unit {0}) → Exec S B → Exec S B
m >> k = m >>= λ _. k

continue-eq-ok {ℓ κ} :
    {S : Type 0} {A : Type ℓ} {B : Type κ} (r : Result A × S) (f : A → Exec S B) {b : B} {s₂ : S}
    → continue r f ≡ (ok b, s₂)
    → (a : A) × (s₁ : S) × (r ≡ (ok a, s₁)) × (f a s₁ ≡ (ok b, s₂))
continue-eq-ok (ok a, s₁) f h = (a, s₁, refl, h)
continue-eq-ok {S} {B} (err e, s₁) f h = cc (ap (λ (q : Result B × S). q.0) h)

-- How a successful block was made of successful steps.
pub >>=-eq-ok {ℓ κ} :
    {S : Type 0} {A : Type ℓ} {B : Type κ} (m : Exec S A) (f : A → Exec S B) (s : S) {b : B}
    {s₂ : S}
    → (m >>= f) s ≡ (ok b, s₂)
    → (a : A) × (s₁ : S) × (m s ≡ (ok a, s₁)) × (f a s₁ ≡ (ok b, s₂))
unfolding ◌>>=◌
>>=-eq-ok m f s h = continue-eq-ok (m s) f h

pub lift-eq-ok {ℓ} :
    {S : Type 0} {A : Type ℓ} (r : Result A) (s : S) {a : A} {s₁ : S}
    → lift r s ≡ (ok a, s₁)
    → (r ≡ ok a) × (s₁ ≡ s)
lift-eq-ok {S} {A} r s h =
    (ap (λ (q : Result A × S). q.0) h, sym (ap (λ (q : Result A × S). q.1) h))

result-commit_or_rollback {ℓ} :
    {S : Type 0} {A : Type ℓ} (s : S) (r : Result A × S) → (commit_or_rollback s r).0 ≡ r.0
result-commit_or_rollback s (ok a, s₁) = refl
result-commit_or_rollback s (err e, s₁) = refl

-- A transaction returns and raises what its block does.
pub result-transaction {ℓ} :
    {S : Type 0} {A : Type ℓ} (m : Exec S A) (s : S) → (transaction m s).0 ≡ (m s).0
result-transaction m s = result-commit_or_rollback s (m s)

-- A transaction that raises is rolled back.
pub transaction-err {ℓ} :
    {S : Type 0} {A : Type ℓ} (m : Exec S A) (s : S) {e : Error}
    → (transaction m s).0 ≡ err e
    → (transaction m s).1 ≡ s
transaction-err {S = S} {A = A} m s {e} h = rolled_back (m s) h
  where
    rolled_back :
        (r : Result A × S) → (commit_or_rollback s r).0 ≡ err e → (commit_or_rollback s r).1 ≡ s
    rolled_back (ok a, after) h = cc
    rolled_back (err f, after) h = refl

pub or_raise-eq-ok {ℓ} :
    {A : Type ℓ} (o : Option A) (e : Error) {a : A} → or_raise o e ≡ ok a → o ≡ some a
or_raise-eq-ok none e h = cc
or_raise-eq-ok (some x) e h = cc

-- The end of the range of an Integer column.
abbrev pub integer_32 : ℕ
integer_32 = 2147483648

-- NUMERIC(24, 8) holds less than 10 ^ 16, which is 10 ^ 24 units; NUMERIC(32, 8) 10 ^ 32 units.
abbrev pub numeric_24 : ℕ
numeric_24 = 10 ^ 24

abbrev pub numeric_32 : ℕ
numeric_32 = 10 ^ 32
