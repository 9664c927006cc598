-- ===== src/Ledger/Locking.antt =====
-- app/ledger.py: the rows that `_locked_accounts` locks and returns.
use mathlib.Core.List.Memᴰ
use netaro_settlement_router.Prelude.{
  ◌≡◌, sym, subst, true, some, List, [], ◌∷◌, Memᴰ, arith, inl, inr, leb, mem_of_mem-select,
  mem-select, exists-of_mem, Bool-cases, Option-cases, ◌⊎◌,
}
use netaro_settlement_router.Routing.Types.{usd, same_currency_iff}
use netaro_settlement_router.Models.{Account, AccountKey}
use netaro_settlement_router.Database.{Database, ok}
use netaro_settlement_router.Ledger.{
  has_key, insert_by_id, order_by_id, get_account, selected, locked_rows, locked_accounts,
}

mem_of_insert_by_id :
    (a b : Account) (rows : List Account) → Memᴰ b (insert_by_id a rows) → (b ≡ a) ⊎ Memᴰ b rows
unfolding insert_by_id
mem_of_insert_by_id a b [] m = inl (Memᴰ.eq_of_singleton m)
mem_of_insert_by_id a b (c ∷ rows) m = elim (Bool-cases (leb a.id c.id)) [
  | inl before ↦ Memᴰ.cases_cons (rw before at m)
  | inr after ↦ elim (Memᴰ.cases_cons (rw after at m)) [
    | inl p ↦ inr (Memᴰ.head p)
    | inr later ↦ elim (mem_of_insert_by_id a b rows later) [
      | inl p ↦ inl p
      | inr old ↦ inr (Memᴰ.tail old)
    ]
  ]
]

mem-insert_by_id :
    (a b : Account) (rows : List Account) → (b ≡ a) ⊎ Memᴰ b rows → Memᴰ b (insert_by_id a rows)
unfolding insert_by_id
mem-insert_by_id a b [] (inl p) = Memᴰ.head p
mem-insert_by_id a b [] (inr m) = elim m [ ]
mem-insert_by_id a b (c ∷ rows) (inl p) = elim (Bool-cases (leb a.id c.id)) [
  | inl before ↦ rw before (Memᴰ.head p)
  | inr after ↦ rw after (Memᴰ.tail (mem-insert_by_id a b rows (inl p)))
]
mem-insert_by_id a b (c ∷ rows) (inr m) = elim (Bool-cases (leb a.id c.id)) [
  | inl before ↦ rw before (Memᴰ.tail m)
  | inr after ↦ rw after (elim (Memᴰ.cases_cons m) [
    | inl p ↦ Memᴰ.head p
    | inr later ↦ Memᴰ.tail (mem-insert_by_id a b rows (inr later))
  ])
]

pub mem_of_order_by_id :
    (b : Account) (rows : List Account) → Memᴰ b (order_by_id rows) → Memᴰ b rows
unfolding order_by_id
mem_of_order_by_id b [] m = m
mem_of_order_by_id b (a ∷ rows) m = elim (mem_of_insert_by_id a b (order_by_id rows) m) [
  | inl p ↦ Memᴰ.head p
  | inr later ↦ Memᴰ.tail (mem_of_order_by_id b rows later)
]

pub mem-order_by_id : (b : Account) (rows : List Account) → Memᴰ b rows → Memᴰ b (order_by_id rows)
unfolding order_by_id
mem-order_by_id b [] m = m
mem-order_by_id b (a ∷ rows) m = elim (Memᴰ.cases_cons m) [
  | inl p ↦ mem-insert_by_id a b (order_by_id rows) (inl p)
  | inr later ↦ mem-insert_by_id a b (order_by_id rows) (inr (mem-order_by_id b rows later))
]

pub get_account-mem :
    (key : AccountKey) (rows : List Account) (a : Account)
    → get_account key rows ≡ some a
    → Memᴰ a rows × (has_key key a ≡ true)
get_account-mem key [] a h = cc
get_account-mem key (b ∷ rows) a h = elim (Option-cases (get_account key rows)) [
  | inl missing ↦ elim (Bool-cases (has_key key b)) [
    | inl hit ↦ (Memᴰ.head (ground arith), ground arith)
    | inr miss ↦ cc (rw miss at (rw missing at h))
  ]
  | inr (c, found) ↦
      let (m, k) = get_account-mem key rows a (cc (found, rw found at h)) in (Memᴰ.tail m, k)
]

pub get_account_of_mem :
    (key : AccountKey) (rows : List Account) {a : Account}
    → Memᴰ a rows
    → has_key key a ≡ true
    → (b : Account) × (get_account key rows ≡ some b)
get_account_of_mem key [] m h = elim m [ ]
get_account_of_mem key (c ∷ rows) (Memᴰ.head p) h = elim (Option-cases (get_account key rows)) [
  | inl missing ↦
      let hit : has_key key c ≡ true = subst (λ a. has_key key a ≡ true) p h in
      (c, rw missing (rw hit))
  | inr (b, found) ↦ (b, rw found)
]
get_account_of_mem key (c ∷ rows) (Memᴰ.tail m) h =
    let (b, found) = get_account_of_mem key rows m h in (b, rw found)

module _ (keys : List AccountKey) (db : Database) where
  -- A row that the lock returns for a key is a row of the table, in USD and with that key.
  pub locked_accounts-mem :
      (rows : List Account) (key : AccountKey) (a : Account)
      → locked_accounts keys db ≡ ok rows
      → get_account key rows ≡ some a
      → Memᴰ a db.accounts × (a.currency ≡ usd) × (has_key key a ≡ true)
  unfolding locked_accounts locked_rows
  locked_accounts-mem rows key a h found =
      let (m, k) = get_account-mem key rows a found in
      let same : locked_rows keys db.accounts ≡ rows = ground arith in
      let (in_table, passes) =
        mem_of_mem-select (selected keys) db.accounts
          (mem_of_order_by_id a _ (subst (λ l. Memᴰ a l) (sym same) m)) in
      (in_table, (same_currency_iff _ _).0 (ground arith), k)

module _ (keys : List AccountKey) (accounts : List Account) where
  -- A row in USD with one of the keys is locked.
  pub locked_rows-found :
      (key : AccountKey) {a : Account}
      → Memᴰ key keys
      → Memᴰ a accounts
      → a.currency ≡ usd
      → has_key key a ≡ true
      → (b : Account) × (get_account key (locked_rows keys accounts) ≡ some b)
  unfolding locked_rows
  locked_rows-found key {a} in_keys m in_usd at_key =
      get_account_of_mem key _
        (mem-order_by_id a _ (
          mem-select (selected keys) accounts m
            (rw in_usd (exists-of_mem (λ k. has_key k a) keys in_keys at_key))))
        at_key
