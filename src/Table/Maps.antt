-- ===== src/Table/Maps.antt =====
-- How many rows a table has, and which, after an entry of a map is set or deleted.
use codex_everywhere.Prelude.{
  ◌+◌, ◌≤◌, ◌≡◌, refl, Bool, true, false, ◌&&◌, ◌||◌, not, List, [], ◌∷◌, ◌++◌, none, some, String,
  same, same_iff, same_refl, length, if◌then◌else◌, arith,
}
use codex_everywhere.Table.{find, delete, modified, exists, at, lookup, put}

module _ {ℓ} {A : Type ℓ} where
  pub modified-delete-any :
      (p q : A → Bool) (rows : List A) → modified p (delete q rows) ≤ modified p rows
  unfolding modified delete
  modified-delete-any p q [] = omega arith
  modified-delete-any p q (r ∷ rs) = ground (arith, modified-delete-any p q rs)

  pub modified-append :
      (p : A → Bool) (rows : List A) (x : A)
      → modified p (rows ++ x ∷ []) ≡ modified p rows + (if p x then 1 else 0)
  unfolding modified
  modified-append p [] x = ground arith
  modified-append p (r ∷ rs) x = ground (arith, modified-append p rs x)

  -- What an entry can bring is itself.
  pub exists-append :
      (p : A → Bool) (rows : List A) (x : A) → exists p (rows ++ x ∷ []) ≡ (exists p rows || p x)
  unfolding exists
  exists-append p [] x = ground arith
  exists-append p (r ∷ rs) x = ground (arith, exists-append p rs x)

  -- Nothing comes by a DELETE.
  pub exists-delete :
      (p q : A → Bool) (rows : List A) → exists p rows ≡ false → exists p (delete q rows) ≡ false
  unfolding exists delete
  exists-delete p q [] h = refl
  exists-delete p q (r ∷ rs) h = ground (arith, h, exists-delete p q rs)

  pub length-delete-le : (q : A → Bool) (rows : List A) → length (delete q rows) ≤ length rows
  unfolding delete
  length-delete-le q [] = omega arith
  length-delete-le q (r ∷ rs) = ground (arith, length-delete-le q rs)

  -- The row that was found is gone.
  pub modified-delete_found :
      (p q : A → Bool) (rows : List A) (x : A)
      → find q rows ≡ some x
      → modified p (delete q rows) + (if p x then 1 else 0) ≤ modified p rows
  unfolding modified delete find
  modified-delete_found p q [] x h = absurd (cc)
  modified-delete_found p q (r ∷ rs) x h =
      ground (arith, modified-delete_found p q rs x, modified-delete-any p q rs)

  pub modified-le-length : (p : A → Bool) (rows : List A) → modified p rows ≤ length rows
  unfolding modified
  modified-le-length p [] = omega arith
  modified-le-length p (r ∷ rs) = ground (arith, modified-le-length p rs)

  pub length-delete_found :
      (q : A → Bool) (rows : List A)
      → exists q rows ≡ true
      → length (delete q rows) + 1 ≤ length rows
  unfolding delete exists
  length-delete_found q [] h = absurd (cc)
  length-delete_found q (r ∷ rs) h =
      ground (arith, h, length-delete_found q rs, length-delete-le q rs)

  module _ (key : A → String) where
    -- The entry that was there is replaced.
    pub modified-put_found :
        (p : A → Bool) (x y : A) (rows : List A)
        → lookup key (key x) rows ≡ some y
        → modified p (put key x rows) + (if p y then 1 else 0)
          ≡ modified p rows + (if p x then 1 else 0)
    unfolding modified put find
    modified-put_found p x y [] h = absurd (cc)
    modified-put_found p x y (r ∷ rs) h = ground (arith, h, modified-put_found p x y rs)

    pub modified-put-le :
        (p : A → Bool) (x : A) (rows : List A)
        → modified p (put key x rows) ≤ modified p rows + (if p x then 1 else 0)
    unfolding modified put
    modified-put-le p x [] = ground arith
    modified-put-le p x (r ∷ rs) = ground (arith, modified-put-le p x rs)

    pub length-put-le : (x : A) (rows : List A) → length (put key x rows) ≤ length rows + 1
    unfolding put
    length-put-le x [] = omega arith
    length-put-le x (r ∷ rs) = ground (arith, length-put-le x rs)

    pub length-put_there :
        (x y : A) (rows : List A)
        → lookup key (key x) rows ≡ some y
        → length (put key x rows) ≡ length rows
    unfolding find put
    length-put_there x y [] h = absurd (cc)
    length-put_there x y (r ∷ rs) h = ground (arith, length-put_there x y rs)

    pub lookup-put :
        (k : String) (x : A) (rows : List A)
        → lookup key k (put key x rows) ≡ (if same (key x) k then some x else lookup key k rows)
    unfolding find put
    lookup-put k x [] = refl
    lookup-put k x (r ∷ rs) = ground (arith, lookup-put k x rs)

    pub exists-put :
        (k : String) (x : A) (rows : List A)
        → exists (at key k) (put key x rows)
          ≡ (if same (key x) k then true else exists (at key k) rows)
    unfolding exists put
    exists-put k x [] = ground arith
    exists-put k x (r ∷ rs) = ground (arith, exists-put k x rs)

    pub lookup-delete_key :
        (k j : String) (rows : List A)
        → lookup key k (delete (at key j) rows) ≡ (if same j k then none else lookup key k rows)
    unfolding find delete
    lookup-delete_key k j [] = ground arith
    lookup-delete_key k j (r ∷ rs) = ground (arith, lookup-delete_key k j rs)

    pub exists-delete_key :
        (k j : String) (rows : List A)
        → exists (at key k) (delete (at key j) rows)
          ≡ (if same j k then false else exists (at key k) rows)
    unfolding exists delete
    exists-delete_key k j [] = ground arith
    exists-delete_key k j (r ∷ rs) = ground (arith, exists-delete_key k j rs)

    pub exists-put_none :
        (p : A → Bool) (x : A) (rows : List A)
        → exists p rows ≡ false
        → p x ≡ false
        → exists p (put key x rows) ≡ false
    unfolding exists put
    exists-put_none p x [] h e = ground (arith, e)
    exists-put_none p x (r ∷ rs) h e = ground (arith, h, e, exists-put_none p x rs)

    pub exists-found :
        (q : A → Bool) (x : A) (rows : List A)
        → find q rows ≡ some x
        → exists (at key (key x)) rows ≡ true
    unfolding exists find
    exists-found q x [] h = absurd (cc)
    exists-found q x (r ∷ rs) h = ground (arith, h, exists-found q x rs)

    pub found-key : (k : String) (x : A) (rows : List A) → lookup key k rows ≡ some x → key x ≡ k
    unfolding find
    found-key k x [] h = absurd (cc)
    found-key k x (r ∷ rs) h = ground (arith, found-key k x rs, same_iff (key r) k)

    none_there :
        (k : String) (rows : List A) → exists (at key k) rows ≡ false → modified (at key k) rows ≡ 0
    unfolding modified exists
    none_there k [] h = refl
    none_there k (r ∷ rs) h = ground (arith, h, none_there k rs)

    found-modified :
        (p : A → Bool) (x : A) (rows : List A)
        → find p rows ≡ some x
        → 1 ≤ modified (at key (key x)) rows
    unfolding modified find
    found-modified p x [] h = absurd (cc)
    found-modified p x (r ∷ rs) h = ground (arith, h, found-modified p x rs, same_refl (key x))

    -- A key that stands in one row at most stays so.
    pub modified-put_key :
        (k : String) (x : A) (rows : List A)
        → modified (at key k) (put key x rows)
          ≡ (if same (key x) k && not (exists (at key k) rows) then 1 else modified (at key k) rows)
    unfolding modified put exists
    modified-put_key k x [] = ground arith
    modified-put_key k x (r ∷ rs) = ground (arith, modified-put_key k x rs, none_there k rs)

    -- A row of a keyed table is the one of its key.
    pub found-lookup :
        (p : A → Bool) (x : A) (rows : List A)
        → modified (at key (key x)) rows ≤ 1
        → find p rows ≡ some x
        → lookup key (key x) rows ≡ some x
    unfolding modified find
    found-lookup p x [] h e = absurd (cc)
    found-lookup p x (r ∷ rs) h e =
        ground (arith, h, e, found-lookup p x rs, found-modified p x rs, same_refl (key x))
