-- ===== src/Mutation/Ephemeral/Bound.antt =====
-- The size of the Map of ephemeral results in apps/agent/src/v2/services/mutation-middleware.ts.
use codex_everywhere.Prelude.{
  ℕ, ◌+◌, ◌≤◌, ◌<◌, ◌≡◌, refl, List, [], ◌∷◌, Option, none, some, String, same, ◌==◌, length,
  length-append, if_either, arith,
}
use codex_everywhere.Table.{delete, at, lookup, find}
use codex_everywhere.Table.Laws.{key-lookup}
use codex_everywhere.Mutation.Receipts.{past}
use codex_everywhere.Mutation.Ephemeral.{
  Entry, Cache, Begun, entry_key, touch, evict, new_entry, started, existing, begin, settled_entry,
  settled, settle, Event, begins, settles, handle, run,
}

length-evict : (limit : ℕ) (es : List Entry) → 1 ≤ limit → length (evict limit es) < limit
unfolding evict
length-evict limit [] h = omega (arith, h)
length-evict limit (e ∷ es) h = ground (arith, length-evict limit es)

pub length-delete : (k : String) (es : List Entry) → length (delete (at entry_key k) es) ≤ length es
unfolding delete
length-delete k [] = omega arith
length-delete k (e ∷ es) = ground (arith, length-delete k es)

length-taken :
    (k : String) (e : Entry) (es : List Entry)
    → lookup entry_key k es ≡ some e
    → length (delete (at entry_key k) es) + 1 ≤ length es
unfolding delete find
length-taken k e [] q = cc q
length-taken k e (x ∷ xs) q = ground (arith, length-taken k e xs, length-delete k xs)

found_key : (k : String) (e : Entry) (es : List Entry) → lookup entry_key k es ≡ some e → e.key ≡ k
found_key k e es q = key-lookup entry_key k es e q

abbrev pub IsWithin : Cache → Type 0
IsWithin c = (1 ≤ c.limit) × (length c.entries ≤ c.limit)

touch-length :
    (k : String) (e f : Entry) (es : List Entry)
    → lookup entry_key k es ≡ some e
    → f.key ≡ k
    → length (touch f es) ≤ length es
unfolding touch
touch-length k e f es q p =
    omega (arith, length-append (delete (at entry_key f.key) es) (f ∷ []), taken f.key p)
  where
    taken : (j : String) → j ≡ k → length (delete (at entry_key j) es) + 1 ≤ length es
    taken j r = rw r (length-taken k e es q)

started-IsWithin :
    (key fingerprint : String) (c : Cache) → 1 ≤ c.limit → IsWithin (started key fingerprint c).0
started-IsWithin key fingerprint c h = (
  h,
  omega (
    arith,
    length-append (evict c.limit c.entries) (new_entry key fingerprint c.next_serial ∷ []),
    length-evict c.limit c.entries h,
  ),
)

handle-IsWithin : (e : Event) (c : Cache) → IsWithin c → IsWithin (handle e c)
unfolding handle begin settle
handle-IsWithin (begins key fingerprint now) c h = go (lookup entry_key key c.entries) refl
  where
    go :
        (m : Option Entry)
        → lookup entry_key key c.entries ≡ m
        → IsWithin (existing key fingerprint now c m).0
    go none q = started-IsWithin key fingerprint c h.0
    go (some e) q =
        if_either (λ (r : Cache × Begun). IsWithin r.0) (past e.expires_at now)
          (started-IsWithin key fingerprint
            (record c { entries = delete (at entry_key key) c.entries }) h.0)
          (if_either (λ (r : Cache × Begun). IsWithin r.0) (same e.fingerprint fingerprint)
            (
              h.0,
              omega (arith, h.1, touch-length key e e c.entries q (found_key key e c.entries q)),
            )
            h)
handle-IsWithin (settles key serial outcome now) c h = go (lookup entry_key key c.entries) refl
  where
    go :
        (m : Option Entry)
        → lookup entry_key key c.entries ≡ m
        → IsWithin (settled serial outcome now c m)
    go none q = h
    go (some e) q =
        if_either IsWithin (e.serial == serial)
          (
            h.0,
            omega (
              arith,
              h.1,
              touch-length key e (settled_entry outcome now e) c.entries q
                  (found_key key e c.entries q),
            ),
          )
          h

-- Over any calls and settled promises, from a limit of at least one and a Map within it, the Map stays
-- within its limit.
pub run-IsWithin : (es : List Event) (c : Cache) → IsWithin c → IsWithin (run es c)
unfolding run
run-IsWithin [] c h = h
run-IsWithin (e ∷ es) c h = run-IsWithin es (handle e c) (handle-IsWithin e c h)
