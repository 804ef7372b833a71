-- ===== src/Relay/Rates.antt =====
-- `#consumeAddressBudget` of apps/relay/src/relay-server.ts: the attempts of each address in a window
-- that starts with the first of them. `now - startedAt >= windowMs` is written as `startedAt + windowMs
-- <= now`, for a clock that does not go back.
use codex_everywhere.Prelude.{
  ℕ, suc, ◌+◌, Bool, false, List, [], ◌∷◌, Option, none, some, String, length, leb, if◌then◌else◌,
}
use codex_everywhere.Table.{delete, at, lookup, put}
use codex_everywhere.Relay.{Bucket, bucket_key}

abbrev pub is_over : ℕ → ℕ → Bucket → Bool
is_over window now b = leb (b.started_at + window) now

abbrev pub drop_over : ℕ → ℕ → String → Option Bucket → List Bucket → List Bucket
drop_over window now address none buckets = buckets
drop_over window now address (some b) buckets =
    if is_over window now b then delete (at bucket_key address) buckets else buckets

-- The oldest bucket makes room when its window is over; `none` is a full map.
abbrev pub make_room : ℕ → ℕ → ℕ → List Bucket → Option (List Bucket)
make_room window now capacity [] = if leb capacity 0 then none else some []
make_room window now capacity (b ∷ bs) =
    if leb capacity (length (b ∷ bs))
    then (if is_over window now b then some (delete (at bucket_key b.address) (b ∷ bs)) else none)
    else some (b ∷ bs)

abbrev pub first_of : String → ℕ → Bucket
first_of address now = record { address = address; started_at = now; count = 1 }

abbrev pub open_bucket : String → ℕ → ℕ → List Bucket → Option (List Bucket) → List Bucket × Bool
open_bucket address now maximum kept none = (kept, false)
open_bucket address now maximum kept (some room) =
    (put bucket_key (first_of address now) room, leb 1 maximum)

abbrev pub count_in : String → ℕ → ℕ → ℕ → ℕ → List Bucket → Option Bucket → List Bucket × Bool
count_in address now maximum window capacity kept (some b) =
    (put bucket_key (record b { count = suc b.count }) kept, leb (suc b.count) maximum)
count_in address now maximum window capacity kept none =
    open_bucket address now maximum kept (make_room window now capacity kept)

unfoldable pub kept_buckets : String → ℕ → ℕ → List Bucket → List Bucket
kept_buckets address now window buckets =
    drop_over window now address (lookup bucket_key address buckets) buckets

-- The buckets after an attempt, and whether it is let through.
unfoldable pub consume_budget : String → ℕ → ℕ → ℕ → ℕ → List Bucket → List Bucket × Bool
unfolding kept_buckets
consume_budget address now maximum window capacity buckets =
    let kept = kept_buckets address now window buckets in
    count_in address now maximum window capacity kept (lookup bucket_key address kept)
