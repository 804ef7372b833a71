-- ===== src/Queue/Repository/Reads/Oldest.antt =====
-- `nextPending` of apps/agent/src/v2/repositories/queue-repository.ts against the order of the
-- items.
use codex_everywhere.Prelude.{
  ℕ, ◌≤◌, ◌≡◌, refl, Bool, true, false, List, [], ◌∷◌, Option, none, some, arith, All, All-map, not,
  if◌then◌else◌,
}
use codex_everywhere.Table.{delete}
use codex_everywhere.Queue.Rows.{
  ItemRow, Database, QueueRecord, Result, ok, err, precedes, reason_of, outcome_of, read_claim,
  join, pending,
}
use codex_everywhere.Queue.Repository.Reads.{
  insert_row, order_rows, select, is_pending, read_first, next_pending,
}

-- The first row of an ordered list, as an oldest one.
abbrev Leads : List ItemRow → List ItemRow → Type 0
Leads [] rows = rows ≡ []
Leads (x ∷ xs) rows = All (λ r. x.created_at ≤ r.created_at) rows

older :
    (t u : ℕ) (rows : List ItemRow)
    → t ≤ u
    → All (λ r. u ≤ r.created_at) rows
    → All (λ r. t ≤ r.created_at) rows
older t u rows le h =
    All-map (λ (r : ItemRow). u ≤ r.created_at) (λ r. t ≤ r.created_at) rows (λ r p. omega arith) h

insert-Leads :
    (r : ItemRow) (sorted rows : List ItemRow)
    → Leads sorted rows
    → Leads (insert_row r sorted) (r ∷ rows)
unfolding insert_row precedes
insert-Leads r [] rows h = rw h (omega arith, tt)
insert-Leads r (x ∷ xs) rows h = ground (arith, older r.created_at x.created_at rows)

order-Leads : (rows : List ItemRow) → Leads (order_rows rows) rows
unfolding order_rows
order-Leads [] = refl
order-Leads (r ∷ rs) = insert-Leads r (order_rows rs) rs (order-Leads rs)

module _ (P : ItemRow → Type 0) where
  insert-All : (r : ItemRow) (rows : List ItemRow) → P r → All P rows → All P (insert_row r rows)
  unfolding insert_row
  insert-All r [] p h = (p, tt)
  insert-All r (x ∷ xs) p h = ground (arith, insert-All r xs p h.1)

  order-All : (rows : List ItemRow) → All P rows → All P (order_rows rows)
  unfolding order_rows
  order-All [] h = tt
  order-All (r ∷ rs) h = insert-All r (order_rows rs) h.0 (order-All rs h.1)

  -- A selected row satisfies the clause, and what holds of the selected rows is said of those.
  select-All :
      (rows : List ItemRow)
      → All P rows
      → All (λ r. P r × (is_pending r ≡ true)) (select is_pending rows)
  unfolding delete
  select-All [] h = tt
  select-All (r ∷ rs) h = ground (arith, select-All rs h.1)

  of_select :
      (rows : List ItemRow)
      → All P (select is_pending rows)
      → All (λ r. is_pending r ≡ true → P r) rows
  unfolding delete
  of_select [] h = tt
  of_select (r ∷ rs) h = go (of_select rs) (is_pending r) refl h
    where
      go :
          (All P (select is_pending rs) → All (λ x. is_pending x ≡ true → P x) rs)
          → (b : Bool) → is_pending r ≡ b
          → All P (if not b then select is_pending rs else r ∷ select is_pending rs)
          → All (λ x. is_pending x ≡ true → P x) (r ∷ rs)
      go rest true q h = (λ _. h.0, rest h.1)
      go rest false q h = (λ p. cc (q, p), rest h)

-- The item that `next_pending` should return.
abbrev pub Oldest : Database → Result (Option QueueRecord) → Type 0
Oldest db (err e) = ⊥
Oldest db (ok none) = All (λ x. is_pending x ≡ true → ⊥) db.items
Oldest db (ok (some r)) =
    (r.status ≡ pending) × All (λ x. is_pending x ≡ true → r.created_at ≤ x.created_at) db.items

abbrev pub IsReadable : ItemRow → Type 0
IsReadable r = r.request.version ≡ 1

-- A readable row reads as a record of its fields.
join_readable :
    (db : Database) (x : ItemRow)
    → IsReadable x
    → (r : QueueRecord) × (join db x ≡ ok r) × (r.status ≡ x.status) × (r.created_at ≡ x.created_at)
unfolding join
join_readable db x e = (
  record {
    id = x.id;
    workspace_path = x.workspace_path;
    thread_id = x.thread_id;
    text = x.request.text;
    status = x.status;
    revision = x.revision;
    created_at = x.created_at;
    updated_at = x.updated_at;
    indeterminate_reason = reason_of x.status (outcome_of (read_claim db x.id));
  },
  ground arith,
  refl,
  refl,
)

-- `next_pending` fails on no readable table; what it returns is pending and was created no later
-- than any other pending item; it returns nothing only if no item is pending.
pub next_pending-Oldest : (db : Database) → All IsReadable db.items → Oldest db (next_pending db)
unfolding next_pending
next_pending-Oldest db readable =
    go (order_rows (select is_pending db.items)) (order-Leads (select is_pending db.items)) (
      order-All (λ r. IsReadable r × (is_pending r ≡ true)) (select is_pending db.items)
        (select-All IsReadable db.items readable))
  where
    go :
        (sorted : List ItemRow)
        → Leads sorted (select is_pending db.items)
        → All (λ r. IsReadable r × (is_pending r ≡ true)) sorted
        → Oldest db (read_first db sorted)
    go [] empty _ = of_select (λ _. ⊥) db.items (rw empty tt)
    go (x ∷ xs) leads all =
        let (r, read, status, created) = join_readable db x all.0.0 in
        rw read (
          ground (arith, all.0.1),
          rw created (of_select (λ y. x.created_at ≤ y.created_at) db.items leads),
        )
