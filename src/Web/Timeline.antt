-- ===== src/Web/Timeline.antt =====
-- apps/web/src/v4/actors/thread-timeline-model.ts: the pages of a thread's timeline. Of a timeline item
-- the model has what the code reads; `body` is the rest.
pub mod Reference
use codex_everywhere.Prelude.{
  ℕ, Bool, true, false, ◌&&◌, ◌||◌, not, List, [], ◌∷◌, ◌++◌, Option, none, some, String, same,
  if◌then◌else◌,
}

pub record Item : Type 0 where
  pub id : String
  pub type : String
  pub source : Option String
  pub body : String

pub data ThreadState : Type 0 where
  idle running waiting_input failed : ThreadState

pub record Settings : Type 0 where
  pub revision : ℕ
  pub values : String

pub record Interaction : Type 0 where
  pub id : String
  pub thread_id : String
  pub body : String

-- What `thread/open` answers.
pub record Snapshot : Type 0 where
  pub thread_id : String
  pub state : ThreadState
  pub settings : Settings
  pub interactions : List Interaction
  pub items : List Item
  pub history_cursor : Option String
  pub has_earlier_history : Bool
  pub context_usage : Option String
  pub rest : String

-- What `thread/history` answers.
pub record HistoryPage : Type 0 where
  pub items : List Item
  pub next_cursor : Option String
  pub has_more : Bool

unfoldable pub has : String → List String → Bool
has k [] = false
has k (x ∷ xs) = same x k || has k xs

unfoldable pub ids : List Item → List String
ids [] = []
ids (x ∷ xs) = x.id ∷ ids xs

abbrev pub keep {ℓ} : {A : Type ℓ} → (A → Bool) → List A → List A
keep p [] = []
keep p (x ∷ xs) = let rest = keep p xs in if p x then x ∷ rest else rest

unfoldable pub backwards {ℓ} : {A : Type ℓ} → List A → List A
backwards [] = []
backwards (x ∷ xs) = backwards xs ++ x ∷ []

-- The loop of `deduplicateKeepingLast`: over the items from the last to the first.
unfoldable pub unseen : List String → List Item → List Item
unfolding has
unseen seen [] = []
unseen seen (x ∷ xs) =
    let first = x ∷ unseen (x.id ∷ seen) xs in
    let again = unseen seen xs in if has x.id seen then again else first

unfoldable pub deduplicate_keeping_last : List Item → List Item
unfolding unseen backwards
deduplicate_keeping_last xs = backwards (unseen [] (backwards xs))

abbrev pub is_new : List String → Item → Bool
is_new known x = not (has x.id known)

unfoldable pub merge_timeline_pages : List Item → List Item → List Item
unfolding deduplicate_keeping_last has ids
merge_timeline_pages earlier later =
    keep (is_new (ids later)) earlier ++ deduplicate_keeping_last later

unfoldable pub prepend_authoritative_history_page : Snapshot → HistoryPage → Snapshot
unfolding merge_timeline_pages
prepend_authoritative_history_page s page = record s {
  items = merge_timeline_pages page.items s.items;
  history_cursor = page.next_cursor;
  has_earlier_history = page.has_more;
}

abbrev pub is_source : Option String → Bool
is_source none = false
is_source (some s) = same s "codex/generic"

abbrev pub is_transient_generic_item : Item → Bool
is_transient_generic_item x = same x.type "generic" && is_source x.source

abbrev pub with_transient : Snapshot → List Item → Snapshot
with_transient authoritative [] = authoritative
with_transient authoritative (t ∷ ts) = record authoritative {
  items = merge_timeline_pages authoritative.items (t ∷ ts);
}

unfoldable pub replace_authoritative_timeline_window : Option Snapshot → Snapshot → Snapshot
unfolding merge_timeline_pages
replace_authoritative_timeline_window none authoritative = authoritative
replace_authoritative_timeline_window (some current) authoritative =
    if same current.thread_id authoritative.thread_id
    then with_transient authoritative (keep is_transient_generic_item current.items)
    else authoritative

unfoldable pub has_overlap : List Item → List Item → Bool
unfolding has ids
has_overlap current [] = false
has_overlap current (x ∷ xs) = has x.id (ids current) || has_overlap current xs

-- `slice(0, findIndex(…))`: the items before the first that is known.
unfoldable pub before_known : List String → List Item → List Item
unfolding has
before_known known [] = []
before_known known (x ∷ xs) =
    let rest = before_known known xs in if has x.id known then [] else x ∷ rest

abbrev pub merge_window : Snapshot → Snapshot → Snapshot
merge_window current authoritative = record authoritative {
  items =
      merge_timeline_pages (before_known (ids authoritative.items) current.items)
        (authoritative.items ++ keep is_transient_generic_item current.items);
  history_cursor = current.history_cursor;
  has_earlier_history = current.has_earlier_history;
}

abbrev pub is_nil {ℓ} : {A : Type ℓ} → List A → Bool
is_nil [] = true
is_nil (x ∷ xs) = false

unfoldable pub merge_authoritative_timeline_window :
    Option Snapshot → Snapshot → List String → Snapshot
unfolding replace_authoritative_timeline_window has_overlap before_known ids
merge_authoritative_timeline_window none authoritative loaded = authoritative
merge_authoritative_timeline_window (some current) authoritative loaded =
    if not (same current.thread_id authoritative.thread_id)
    then authoritative
    else if not (has_overlap current.items authoritative.items) || is_nil loaded
    then replace_authoritative_timeline_window (some current) authoritative
    else merge_window current authoritative
