-- ===== src/Web/QueueActor/Items.antt =====
-- What a changed item does to the list that is shown.
use codex_everywhere.Prelude.{
  ℕ, ◌≡◌, refl, ◌∙◌, Bool, true, List, [], ◌∷◌, some, String, same, leb, if◌then◌else◌, Bool-cases,
  inl, inr, arith,
}
use codex_everywhere.Table.{delete, at, lookup, modified, find}
use codex_everywhere.Table.Laws.{IsKeyed, at-lookup, lookup-delete, modified-delete-le}
use codex_everywhere.Web.QueueActor.{QueueItem, insert, sort, id_of, upsert}

-- By creation time.
abbrev pub above : ℕ → List QueueItem → Bool
above t [] = true
above t (x ∷ xs) = leb t x.created_at

pub IsSorted : List QueueItem → Type 0
IsSorted [] = Unit
IsSorted (x ∷ xs) = (above x.created_at xs ≡ true) × IsSorted xs

above-insert :
    (t : ℕ) (x : QueueItem) (xs : List QueueItem)
    → above t xs ≡ true
    → leb t x.created_at ≡ true
    → above t (insert x xs) ≡ true
unfolding insert
above-insert t x [] h le = le
above-insert t x (y ∷ ys) h le = ground (arith, h, le)

insert-IsSorted : (x : QueueItem) (xs : List QueueItem) → IsSorted xs → IsSorted (insert x xs)
unfolding insert IsSorted
insert-IsSorted x [] h = (refl, tt)
insert-IsSorted x (y ∷ ys) h = elim (Bool-cases (leb x.created_at y.created_at)) [
  | inl e ↦ rw e (e, h)
  | inr e ↦ rw e (above-insert y.created_at x ys h.0 (ground (arith, e)), insert-IsSorted x ys h.1)
]

sort-IsSorted : (xs : List QueueItem) → IsSorted (sort xs)
unfolding sort IsSorted
sort-IsSorted [] = tt
sort-IsSorted (x ∷ xs) = insert-IsSorted x (sort xs) (sort-IsSorted xs)

modified-insert :
    (k : String) (x : QueueItem) (xs : List QueueItem)
    → modified (at id_of k) (insert x xs) ≡ modified (at id_of k) (x ∷ xs)
unfolding insert modified
modified-insert k x [] = refl
modified-insert k x (y ∷ ys) = ground (arith, modified-insert k x ys)

modified-sort :
    (k : String) (xs : List QueueItem) → modified (at id_of k) (sort xs) ≡ modified (at id_of k) xs
unfolding sort modified
modified-sort k [] = refl
modified-sort k (x ∷ xs) = ground (arith, modified-insert k x (sort xs), modified-sort k xs)

lookup-insert :
    (k : String) (x : QueueItem) (xs : List QueueItem)
    → modified (at id_of x.id) xs ≡ 0
    → lookup id_of k (insert x xs) ≡ lookup id_of k (x ∷ xs)
unfolding insert find modified
lookup-insert k x [] h = refl
lookup-insert k x (y ∷ ys) h = ground (arith, lookup-insert k x ys)

sort-IsKeyed : (xs : List QueueItem) → IsKeyed id_of xs → IsKeyed id_of (sort xs)
sort-IsKeyed xs h k = omega (arith, h k, modified-sort k xs)

tail-IsKeyed : (x : QueueItem) (xs : List QueueItem) → IsKeyed id_of (x ∷ xs) → IsKeyed id_of xs
unfolding modified
tail-IsKeyed x xs h k = ground (arith, h k)

head_absent :
    (x : QueueItem) (xs : List QueueItem) → IsKeyed id_of (x ∷ xs) → modified (at id_of x.id) xs ≡ 0
unfolding modified
head_absent x xs h = ground (arith, h x.id)

lookup-sort :
    (k : String) (xs : List QueueItem)
    → IsKeyed id_of xs
    → lookup id_of k (sort xs) ≡ lookup id_of k xs
unfolding sort find
lookup-sort k [] h = refl
lookup-sort k (x ∷ xs) h = ground (
  arith,
  lookup-insert k x (sort xs),
  modified-sort x.id xs,
  head_absent x xs h,
  lookup-sort k xs (tail-IsKeyed x xs h),
)

deleted_absent :
    (k : String) (xs : List QueueItem) → modified (at id_of k) (delete (at id_of k) xs) ≡ 0
unfolding modified delete
deleted_absent k [] = refl
deleted_absent k (x ∷ xs) = ground (arith, deleted_absent k xs)

-- Where the identifiers of the items are distinct, they are after an item is put in; the list is then
-- in the order of creation, has that item under its identifier, and is as before under every other.
pub upsert-lookup :
    (items : List QueueItem) (item : QueueItem) (k : String)
    → IsKeyed id_of items
    → IsKeyed id_of (upsert items item)
      × (IsSorted (upsert items item)
          × (lookup id_of k (upsert items item)
              ≡ (if same item.id k then some item else lookup id_of k items)))
unfolding upsert modified find
upsert-lookup items item k h = (
  sort-IsKeyed (item ∷ rest) keyed,
  (sort-IsSorted (item ∷ rest), lookup-sort k (item ∷ rest) keyed ∙ here),
)
  where
    rest : List QueueItem
    rest = delete (at id_of item.id) items

    absent : modified (at id_of item.id) rest ≡ 0
    absent = deleted_absent item.id items

    keyed : IsKeyed id_of (item ∷ rest)
    keyed j = ground (arith, h j, absent, modified-delete-le id_of j (at id_of item.id) items)

    here :
        lookup id_of k (item ∷ rest) ≡ (if same item.id k then some item else lookup id_of k items)
    here =
        ground
          (arith, lookup-delete id_of k (at id_of item.id) items (h k), at-lookup id_of k items)
