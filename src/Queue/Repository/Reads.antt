-- ===== src/Queue/Repository/Reads.antt =====
-- The reads `list` and `nextPending` of `QueueRepository`, and what they return.
pub mod Oldest
use codex_everywhere.Prelude.{
  ℕ, ◌≤◌, ◌≡◌, refl, Bool, true, false, ◌&&◌, ◌||◌, not, List, [], ◌∷◌, Option, none, some, String,
  same, if◌then◌else◌, arith, ◌⊎◌, inl, inr, Bool-cases,
}
use codex_everywhere.Table.{delete}
use codex_everywhere.Queue.Rows.{
  RecordStatus, pending, ItemRow, Database, QueueRecord, Result, ok, err, ◌>>=◌, is_status, join,
  precedes,
}

-- ORDER BY: the rows in order, equal rows as they stand.
unfoldable pub insert_row : ItemRow → List ItemRow → List ItemRow
insert_row r [] = r ∷ []
insert_row r (x ∷ xs) = let rest = insert_row r xs in if precedes x r then x ∷ rest else r ∷ x ∷ xs

unfoldable pub order_rows : List ItemRow → List ItemRow
unfolding insert_row
order_rows [] = []
order_rows (r ∷ rs) = insert_row r (order_rows rs)

-- WHERE p.
abbrev pub select : (ItemRow → Bool) → List ItemRow → List ItemRow
select p = delete (λ r. not (p r))

-- `.map(parseQueueRow)`, which throws at the first row that does not parse.
unfoldable pub read_rows : Database → List ItemRow → Result (List QueueRecord)
read_rows db [] = ok []
read_rows db (r ∷ rs) = do x ← join db r; xs ← read_rows db rs; ok (x ∷ xs)

pub record ListOptions : Type 0 where
  pub thread_id : Option String
  pub include_completed : Bool

abbrev pub of_thread : Option String → ItemRow → Bool
of_thread none r = true
of_thread (some t) r = same r.thread_id t

abbrev pub listed : ListOptions → ItemRow → Bool
listed options r =
    (options.include_completed || not (is_status r.status RecordStatus.completed))
    && of_thread options.thread_id r

unfoldable pub list : ListOptions → Database → Result (List QueueRecord)
unfolding read_rows order_rows
list options db = read_rows db (order_rows (select (listed options) db.items))

abbrev pub is_pending : ItemRow → Bool
is_pending r = is_status r.status pending

abbrev pub read_first : Database → List ItemRow → Result (Option QueueRecord)
read_first db [] = ok none
read_first db (r ∷ rs) = do x ← join db r; ok (some x)

unfoldable pub next_pending : Database → Result (Option QueueRecord)
unfolding order_rows
next_pending db = read_first db (order_rows (select is_pending db.items))
