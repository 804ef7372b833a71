-- ===== src/Table.antt =====
-- Tables of rows with a text key, as the SQL statements of the repositories use them: the rows stand
-- in insertion order, an UPDATE changes the rows that its WHERE clause selects, and the number of
-- rows modified is counted.
pub mod Laws
pub mod Maps
use codex_everywhere.Prelude.{
  ℕ, suc, Bool, false, ◌||◌, List, [], ◌∷◌, Option, none, some, String, same, if◌then◌else◌,
}

module _ {ℓ} {A : Type ℓ} where
  -- SELECT … WHERE p, its first row.
  unfoldable pub find : (A → Bool) → List A → Option A
  find p [] = none
  find p (r ∷ rs) = if p r then some r else find p rs

  -- UPDATE … SET f WHERE p.
  unfoldable pub update : (A → Bool) → (A → A) → List A → List A
  update p f [] = []
  update p f (r ∷ rs) = (if p r then f r else r) ∷ update p f rs

  -- DELETE … WHERE p.
  unfoldable pub delete : (A → Bool) → List A → List A
  delete p [] = []
  delete p (r ∷ rs) = let rest = delete p rs in if p r then rest else r ∷ rest

  -- `getRowsModified()` after an UPDATE or a DELETE with the clause p.
  unfoldable pub modified : (A → Bool) → List A → ℕ
  modified p [] = 0
  modified p (r ∷ rs) = let rest = modified p rs in if p r then suc rest else rest

  -- EXISTS (SELECT 1 … WHERE p).
  unfoldable pub exists : (A → Bool) → List A → Bool
  exists p [] = false
  exists p (r ∷ rs) = p r || exists p rs

  module _ (key : A → String) where
    -- The row with a given primary key.
    abbrev pub at : String → A → Bool
    at k r = same (key r) k

    abbrev pub lookup : String → List A → Option A
    lookup k = find (at k)

    -- `Map.prototype.set`: a key that is there keeps its place.
    unfoldable pub put : A → List A → List A
    put x [] = x ∷ []
    put x (r ∷ rs) = let rest = put x rs in if at (key x) r then x ∷ rs else r ∷ rest
