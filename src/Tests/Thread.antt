-- ===== src/Tests/Thread.antt =====
-- Two pages of a timeline that overlap, and a thread that is opened, paged and refreshed.
use codex_everywhere.Prelude.{
  ◌≡◌, refl, true, false, ◌&&◌, ◌||◌, not, List, [], ◌∷◌, ◌++◌, Option, none, some, String,
  text_discrete,
}
use codex_everywhere.Web.Timeline.{
  Item, ThreadState, Snapshot, has, ids, merge_timeline_pages, before_known, has_overlap,
}
use codex_everywhere.Web.Timeline.Reference.{keep_last, IsDistinct, merge_timeline_pages-keep_last}
use codex_everywhere.Web.ThreadActor.{
  Event, open_thread, opened, load_earlier, history_loaded, is_loading, initial_thread,
}
use codex_everywhere.Web.ThreadActor.Refresh
use codex_everywhere.Web.ThreadActor.Refresh.{is_fetch_of, is_history_of, run-refreshing}
use codex_everywhere.Web.ThreadActor.Distinct.{ShowsDistinct, reduced, reduced-ShowsDistinct}

abbrev item : String → Item
item k = record { id = k; type = "message"; source = none; body = "" }

abbrev earlier_page : List Item
earlier_page = item "a" ∷ item "b" ∷ item "c" ∷ []

abbrev later_page : List Item
later_page = item "c" ∷ item "d" ∷ item "c" ∷ []

merged_pages :
    merge_timeline_pages earlier_page later_page ≡ item "a" ∷ item "b" ∷ item "d" ∷ item "c" ∷ []
unfolding merge_timeline_pages text_discrete
merged_pages = refl

merge_timeline_pages-keep_last_example :
    (merge_timeline_pages earlier_page later_page ≡ keep_last (earlier_page ++ later_page))
    × IsDistinct (merge_timeline_pages earlier_page later_page)
unfolding has ids text_discrete
merge_timeline_pages-keep_last_example =
    merge_timeline_pages-keep_last earlier_page later_page (refl, (refl, (refl, tt)))

abbrev snapshot : List Item → Snapshot
snapshot items = record {
  thread_id = "t";
  state = ThreadState.idle;
  settings = record { revision = 1; values = "" };
  interactions = [];
  items = items;
  history_cursor = some "cursor";
  has_earlier_history = true;
  context_usage = none;
  rest = "";
}

-- The refresh is asked for while the history is loading.
abbrev visit : List Event
visit =
    open_thread "t"
    ∷ opened (snapshot (item "c" ∷ item "d" ∷ []))
    ∷ load_earlier
    ∷ open_thread "t"
    ∷ history_loaded
        (record { items = item "a" ∷ item "c" ∷ []; next_cursor = none; has_more = false })
    ∷ opened (snapshot (item "d" ∷ item "e" ∷ []))
    ∷ []

abbrev shown_ids : Option Snapshot → List String
shown_ids none = []
shown_ids (some s) = ids s.items

visited : shown_ids (reduced initial_thread visit).snapshot ≡ "a" ∷ "c" ∷ "d" ∷ "e" ∷ []
unfolding reduced initial_thread merge_timeline_pages text_discrete before_known has_overlap
visited = refl

reduced-ShowsDistinct_example : ShowsDistinct (reduced initial_thread visit).snapshot
unfolding has ids text_discrete
reduced-ShowsDistinct_example =
    reduced-ShowsDistinct visit
      (tt, ((refl, (refl, tt)), (tt, (tt, ((refl, (refl, tt)), ((refl, (refl, tt)), tt))))))

run-refreshing_example :
    let f = Refresh.run visit (record { actor = initial_thread; effect = none }) in
    ((not f.actor.refreshing
        || (is_fetch_of f.actor.thread_id f.effect
            || (is_history_of f.actor.thread_id f.effect && f.actor.refresh_pending)))
      ≡ true)
    × ((not (is_loading f.actor.history_status) || is_history_of f.actor.thread_id f.effect) ≡ true)
run-refreshing_example = run-refreshing visit
