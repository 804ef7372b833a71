-- ===== src/Web/Timeline/Reference.antt =====
-- What merging two pages means, item by item.
use codex_everywhere.Prelude.{
  ◌≡◌, refl, ap, ◌∙◌, Bool, true, false, ◌||◌, List, [], ◌∷◌, ◌++◌, String, same, if◌then◌else◌,
  Bool-cases, inl, inr, arith,
}
use codex_everywhere.Web.Timeline.{
  Item, has, ids, keep, backwards, unseen, deduplicate_keeping_last, is_new, merge_timeline_pages,
}

-- An item is kept if its identifier does not come again.
unfoldable pub keep_last : List Item → List Item
unfolding has ids
keep_last [] = []
keep_last (x ∷ xs) = let rest = keep_last xs in if has x.id (ids xs) then rest else x ∷ rest

-- No identifier comes twice.
abbrev pub IsDistinct : List Item → Type 0
IsDistinct [] = Unit
IsDistinct (x ∷ xs) = (has x.id (ids xs) ≡ false) × IsDistinct xs

abbrev unless : Bool → Item → List Item
unless b y = if b then [] else y ∷ []

-- The item that the loop meets last.
unseen-append :
    (seen : List String) (xs : List Item) (y : Item)
    → unseen seen (xs ++ y ∷ []) ≡ unseen seen xs ++ unless (has y.id seen || has y.id (ids xs)) y
unfolding unseen has ids
unseen-append seen [] y = ground arith
unseen-append seen (x ∷ xs) y =
    ground (arith, unseen-append seen xs y, unseen-append (x.id ∷ seen) xs y, has_same seen)
  where
    has_same : (zs : List String) → same x.id y.id ≡ true → has x.id zs ≡ has y.id zs
    has_same zs e = ground (arith, e)

backwards-append : (xs : List Item) (y : Item) → backwards (xs ++ y ∷ []) ≡ y ∷ backwards xs
unfolding backwards
backwards-append [] y = refl
backwards-append (x ∷ xs) y = rw (backwards-append xs y)

has-append :
    (k : String) (xs ys : List Item) → has k (ids (xs ++ ys)) ≡ (has k (ids xs) || has k (ids ys))
unfolding has ids
has-append k [] ys = refl
has-append k (x ∷ xs) ys = ground (arith, has-append k xs ys)

has-backwards : (k : String) (xs : List Item) → has k (ids (backwards xs)) ≡ has k (ids xs)
unfolding has ids backwards
has-backwards k [] = refl
has-backwards k (x ∷ xs) = ground (arith, has-backwards k xs, has-append k (backwards xs) (x ∷ []))

append_none : (xs : List Item) → xs ++ [] ≡ xs
append_none [] = refl
append_none (x ∷ xs) = rw (append_none xs)

pub deduplicate_keeping_last-keep_last :
    (xs : List Item) → deduplicate_keeping_last xs ≡ keep_last xs
unfolding deduplicate_keeping_last keep_last has
deduplicate_keeping_last-keep_last [] = refl
deduplicate_keeping_last-keep_last (x ∷ xs) =
    rw (unseen-append [] (backwards xs) x, has-backwards x.id xs)
      (elim (Bool-cases (has x.id (ids xs))) [
        | inl again ↦
            rw (again, append_none (unseen [] (backwards xs)))
              (deduplicate_keeping_last-keep_last xs)
        | inr last ↦
            rw (last, backwards-append (unseen [] (backwards xs)) x)
              (ap (λ (zs : List Item). x ∷ zs) (deduplicate_keeping_last-keep_last xs))
      ])

has-keep_last : (k : String) (xs : List Item) → has k (ids (keep_last xs)) ≡ has k (ids xs)
unfolding has ids keep_last
has-keep_last k [] = refl
has-keep_last k (x ∷ xs) = ground (arith, has-keep_last k xs, has-keep_last x.id xs)

keep_last-IsDistinct : (xs : List Item) → IsDistinct (keep_last xs)
unfolding keep_last
keep_last-IsDistinct [] = tt
keep_last-IsDistinct (x ∷ xs) = elim (Bool-cases (has x.id (ids xs))) [
  | inl again ↦ rw again (keep_last-IsDistinct xs)
  | inr last ↦ rw last (rw (has-keep_last x.id xs) last, keep_last-IsDistinct xs)
]

keep-keep_last :
    (e l : List Item) → IsDistinct e → keep (is_new (ids l)) e ++ keep_last l ≡ keep_last (e ++ l)
unfolding keep_last
keep-keep_last [] l d = refl
keep-keep_last (x ∷ e) l d = ground (arith, d, keep-keep_last e l d.1, has-append x.id e l)

-- Where no identifier comes twice in the earlier page, merging two pages is to append them and keep the last item
-- of each identifier, and then no identifier comes twice.
pub merge_timeline_pages-keep_last :
    (earlier later : List Item)
    → IsDistinct earlier
    → (merge_timeline_pages earlier later ≡ keep_last (earlier ++ later))
      × IsDistinct (merge_timeline_pages earlier later)
unfolding merge_timeline_pages
merge_timeline_pages-keep_last earlier later d =
    let e =
      ap (λ (zs : List Item). keep (is_new (ids later)) earlier ++ zs)
        (deduplicate_keeping_last-keep_last later)
      ∙ keep-keep_last earlier later d in
    (e, rw e (keep_last-IsDistinct (earlier ++ later)))
