-- ===== src/Table/Laws.antt =====
-- How a keyed table reads after each kind of statement. No law needs more of an UPDATE than that it
-- keeps the key of a row.
use codex_everywhere.Prelude.{
  ◌++◌, ◌+◌, same, ◌≤◌, ◌≡◌, refl, Bool, true, false, ◌&&◌, not, List, [], ◌∷◌, Option, none, some,
  String, if◌then◌else◌, arith,
}
use codex_everywhere.Table.{find, update, delete, modified, exists, at, lookup}

-- What an UPDATE makes of one row.
abbrev pub set_row {ℓ} : {A : Type ℓ} → (A → Bool) → (A → A) → Option A → Option A
set_row p f none = none
set_row p f (some r) = some (if p r then f r else r)

-- What a DELETE leaves of one row.
abbrev pub drop_row {ℓ} : {A : Type ℓ} → (A → Bool) → Option A → Option A
drop_row p none = none
drop_row p (some r) = if p r then none else some r

abbrev pub holds {ℓ} : {A : Type ℓ} → (A → Bool) → Option A → Bool
holds p none = false
holds p (some r) = p r

module _ {ℓ} {A : Type ℓ} (key : A → String) where
  -- Every key stands in one row at most: the PRIMARY KEY constraint.
  abbrev pub IsKeyed : List A → Type 0
  IsKeyed rows = (k : String) → modified (at key k) rows ≤ 1

  pub lookup-update :
      (p : A → Bool) (f : A → A) (keeps : (r : A) → key (f r) ≡ key r) (k : String) (rows : List A)
      → lookup key k (update p f rows) ≡ set_row p f (lookup key k rows)
  unfolding find update
  lookup-update p f keeps k [] = refl
  lookup-update p f keeps k (r ∷ rs) = ground (arith, keeps r, lookup-update p f keeps k rs)

  pub modified-update :
      (p : A → Bool) (f : A → A) (keeps : (r : A) → key (f r) ≡ key r) (k : String) (rows : List A)
      → modified (at key k) (update p f rows) ≡ modified (at key k) rows
  unfolding modified update
  modified-update p f keeps k [] = refl
  modified-update p f keeps k (r ∷ rs) = ground (arith, keeps r, modified-update p f keeps k rs)

  -- Rows of another key do not count.
  pub modified_absent :
      (k : String) (p : A → Bool) (rows : List A)
      → modified (at key k) rows ≡ 0
      → modified (λ r. at key k r && p r) rows ≡ 0
  unfolding modified
  modified_absent k p [] h = refl
  modified_absent k p (r ∷ rs) h = ground (arith, modified_absent k p rs)

  pub lookup_absent :
      (k : String) (rows : List A) → modified (at key k) rows ≡ 0 → lookup key k rows ≡ none
  unfolding modified find
  lookup_absent k [] h = refl
  lookup_absent k (r ∷ rs) h = ground (arith, lookup_absent k rs)

  -- An UPDATE or DELETE by primary key modifies the one row that it selects, if it selects it.
  pub modified-at :
      (k : String) (p : A → Bool) (rows : List A)
      → modified (at key k) rows ≤ 1
      → modified (λ r. at key k r && p r) rows ≡ (if holds p (lookup key k rows) then 1 else 0)
  unfolding modified find
  modified-at k p [] h = refl
  modified-at k p (r ∷ rs) h = ground (arith, modified-at k p rs, modified_absent k p rs)

  pub lookup-delete :
      (k : String) (p : A → Bool) (rows : List A)
      → modified (at key k) rows ≤ 1
      → lookup key k (delete p rows) ≡ drop_row p (lookup key k rows)
  unfolding find modified delete
  lookup-delete k p [] h = refl
  lookup-delete k p (r ∷ rs) h = ground (arith, lookup-delete k p rs, lookup_absent k rs)

  pub modified-delete-le :
      (k : String) (p : A → Bool) (rows : List A)
      → modified (at key k) (delete p rows) ≤ modified (at key k) rows
  unfolding modified delete
  modified-delete-le k p [] = omega arith
  modified-delete-le k p (r ∷ rs) = ground (arith, modified-delete-le k p rs)

  pub exists-lookup :
      (k : String) (rows : List A) → exists (at key k) rows ≡ holds (λ _. true) (lookup key k rows)
  unfolding exists find
  exists-lookup k [] = refl
  exists-lookup k (r ∷ rs) = ground (arith, exists-lookup k rs)

  pub modified-absent_key :
      (k : String) (rows : List A) → lookup key k rows ≡ none → modified (at key k) rows ≡ 0
  unfolding modified find
  modified-absent_key k [] h = refl
  modified-absent_key k (r ∷ rs) h = ground (arith, modified-absent_key k rs)

  -- A row that a lookup finds has the key that was asked for.
  pub key-lookup : (k : String) (rows : List A) (r : A) → lookup key k rows ≡ some r → key r ≡ k
  unfolding find
  key-lookup k [] r h = cc
  key-lookup k (x ∷ xs) r h = ground (arith, key-lookup k xs r)

  -- An INSERT adds the last row.
  pub lookup-append :
      (k : String) (rows : List A) (x : A)
      → lookup key k (rows ++ x ∷ []) ≡ elim (lookup key k rows) [
        | none ↦ if same (key x) k then some x else none
        | some r ↦ some r
      ]
  unfolding find
  lookup-append k [] x = ground arith
  lookup-append k (r ∷ rs) x = ground (arith, lookup-append k rs x)

  pub modified-append :
      (k : String) (rows : List A) (x : A)
      → modified (at key k) (rows ++ x ∷ [])
        ≡ modified (at key k) rows + (if same (key x) k then 1 else 0)
  unfolding modified
  modified-append k [] x = ground arith
  modified-append k (r ∷ rs) x = ground (arith, modified-append k rs x)

  -- The row that a lookup finds has the key that was asked for.
  pub at-lookup :
      (k : String) (rows : List A) → holds (λ r. not (at key k r)) (lookup key k rows) ≡ false
  unfolding find
  at-lookup k [] = refl
  at-lookup k (r ∷ rs) = ground (arith, at-lookup k rs)

  pub exists_absent :
      (k : String) (p : A → Bool) (rows : List A)
      → modified (at key k) rows ≡ 0
      → exists (λ r. at key k r && p r) rows ≡ false
  unfolding modified exists
  exists_absent k p [] h = refl
  exists_absent k p (r ∷ rs) h = ground (arith, exists_absent k p rs)

  pub exists-at :
      (k : String) (p : A → Bool) (rows : List A)
      → modified (at key k) rows ≤ 1
      → exists (λ r. at key k r && p r) rows ≡ holds p (lookup key k rows)
  unfolding modified find exists
  exists-at k p [] h = refl
  exists-at k p (r ∷ rs) h = ground (arith, exists-at k p rs, exists_absent k p rs)
