-- ===== src/Lease/Counts.antt =====
-- Maps from texts to positive numbers, as `#references` and `#terminalObservers` of
-- apps/agent/src/v2/services/thread-lease-manager.ts: a number that falls to 0 is taken out.
use codex_everywhere.Prelude.{
  ℕ, ◌+◌, ◌-◌, ◌≡◌, List, Option, none, some, String, same, same_iff, leb, if◌then◌else◌, arith,
}
use codex_everywhere.Table.{delete, at, lookup, put}
use codex_everywhere.Table.Maps.{lookup-put, lookup-delete_key}

pub record Count : Type 0 where
  pub id : String
  pub count : ℕ

abbrev pub count_key : Count → String
count_key c = c.id

abbrev pub number_in : Option Count → ℕ
number_in none = 0
number_in (some c) = c.count

-- `get(id) ?? 0`.
abbrev pub count_of : String → List Count → ℕ
count_of id cs = number_in (lookup count_key id cs)

unfoldable pub add_count : String → List Count → List Count
add_count id cs = put count_key (record { id = id; count = count_of id cs + 1 }) cs

unfoldable pub release_count : String → List Count → List Count
release_count id cs =
    if leb (count_of id cs) 1
    then delete (at count_key id) cs
    else put count_key (record { id = id; count = count_of id cs - 1 }) cs

pub count_of-add :
    (k id : String) (cs : List Count)
    → count_of k (add_count id cs) ≡ (if same id k then count_of k cs + 1 else count_of k cs)
unfolding add_count
count_of-add k id cs = ground (
  arith,
  same_iff id k,
  lookup-put count_key k (record { id = id; count = count_of id cs + 1 }) cs,
)

pub count_of-release :
    (k id : String) (cs : List Count)
    → count_of k (release_count id cs) ≡ (if same id k then count_of k cs - 1 else count_of k cs)
unfolding release_count
count_of-release k id cs = ground (
  arith,
  same_iff id k,
  lookup-delete_key count_key k id cs,
  lookup-put count_key k (record { id = id; count = count_of id cs - 1 }) cs,
)
