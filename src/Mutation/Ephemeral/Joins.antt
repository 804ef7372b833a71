-- ===== src/Mutation/Ephemeral/Joins.antt =====
-- An ephemeral call of apps/agent/src/v2/services/mutation-middleware.ts that comes again.
use codex_everywhere.Prelude.{
  ℕ, ◌+◌, ◌≤◌, ◌<◌, ◌≡◌, refl, List, [], ◌∷◌, ◌++◌, none, String, same_refl, length, arith, All,
}
use codex_everywhere.Table.{lookup, find}
use codex_everywhere.Mutation.InFlight.Once.{runs}
use codex_everywhere.Mutation.Ephemeral.{
  Entry, Cache, awaits, entry_key, evict, new_entry, started, begin, Event, begins, settles, handle,
  run, ephemeral_result_ttl_ms,
}
use codex_everywhere.Mutation.Ephemeral.Kept.{
  behind, IsKept, begin-IsKept, settle-IsKept, limit_kept, Found,
}

-- The calls come no later than a time, and what is settled is kept beyond it.
abbrev pub IsTimely : ℕ → Event → Type 0
IsTimely end (begins key print now) = now ≤ end
IsTimely end (settles key serial outcome now) = end < now + ephemeral_result_ttl_ms

new-Found :
    (k print : String) (serial : ℕ) (es : List Entry)
    → lookup entry_key k es ≡ none
    → Found k (new_entry k print serial) 0 (es ++ new_entry k print serial ∷ [])
unfolding find behind
new-Found k print serial [] h = ground (arith, same_refl k)
new-Found k print serial (x ∷ xs) h = ground (arith, h, new-Found k print serial xs)

evict-none :
    (k : String) (limit : ℕ) (es : List Entry)
    → lookup entry_key k es ≡ none
    → lookup entry_key k (evict limit es) ≡ none
unfolding find evict
evict-none k limit [] h = refl
evict-none k limit (x ∷ xs) h = ground (arith, h, evict-none k limit xs)

module _ (k print : String) (serial end ran : ℕ) where
  handle-IsKept :
      (e : Event) (n : ℕ) (c : Cache)
      → IsTimely end e
      → n + 1 < c.limit
      → IsKept k print serial end ran n c
      → IsKept k print serial end ran (n + 1) (handle e c)
  unfolding handle
  handle-IsKept (begins j p now) n c t lt h = begin-IsKept k print serial end ran n c h j p now t lt
  handle-IsKept (settles j s o now) n c t lt h =
      settle-IsKept k print serial end ran n c h j s o now t

  run-IsKept :
      (es : List Event) (n : ℕ) (c : Cache)
      → All (IsTimely end) es
      → n + length es < c.limit
      → IsKept k print serial end ran n c
      → (m : ℕ) × IsKept k print serial end ran m (run es c)
  unfolding run
  run-IsKept [] n c t lt h = (n, h)
  run-IsKept (e ∷ es) n c t lt h =
      run-IsKept es (n + 1) (handle e c) t.1
        (omega (arith, limit_kept k print serial end ran e c, lt))
        (handle-IsKept e n c t.0 (omega (arith, lt)) h)

  joined :
      (n now : ℕ) (c : Cache)
      → IsKept k print serial end ran n c
      → now ≤ end
      → ((begin k print now c).1 ≡ awaits serial) × ((begin k print now c).0.executed ≡ c.executed)
  unfolding begin
  joined n now c h le = ground (arith, h.found.0, h.print, h.number, h.fresh)

first_begin :
    (k print : String) (start : ℕ) (c : Cache)
    → lookup entry_key k c.entries ≡ none
    → begin k print start c ≡ started k print c
unfolding begin
first_begin k print start c free = cc free

first-IsKept :
    (k print : String) (end : ℕ) (c : Cache)
    → lookup entry_key k c.entries ≡ none
    → IsKept k print c.next_serial end (runs k c.executed + 1) 0 (started k print c).0
unfolding runs
first-IsKept k print end c free = record {
  entry = new_entry k print c.next_serial;
  found =
      new-Found k print c.next_serial (evict c.limit c.entries)
        (evict-none k c.limit c.entries free);
  print = same_refl print;
  number = refl;
  fresh = refl;
  runs_of = ground (arith, same_refl k);
}

-- Where an operation key is not kept, a call runs its handler; and when the same call comes again after
-- fewer other calls and settled promises than the limit, no later than its result is kept, it awaits
-- the same promise and the handler has not run again.
pub begin-joins :
    (k print : String) (start end now : ℕ) (c : Cache) (es : List Event)
    → lookup entry_key k c.entries ≡ none
    → All (IsTimely end) es
    → length es < c.limit
    → now ≤ end
    → let first = begin k print start c in
      let later = run es first.0 in
      let again = begin k print now later in
      (again.1 ≡ first.1)
      × ((again.0.executed ≡ later.executed) × (runs k later.executed ≡ runs k c.executed + 1))
begin-joins k print start end now c es free timely lt le =
    let b = first_begin k print start c free in
    let kept : IsKept k print c.next_serial end (runs k c.executed + 1) 0
        (begin k print start c).0 =
      rw b (first-IsKept k print end c free) in
    let room : 0 + length es < (begin k print start c).0.limit = rw b (omega (arith, lt)) in
    let late =
      run-IsKept k print c.next_serial end (runs k c.executed + 1) es 0 (begin k print start c).0
        timely room kept in
    let again =
      joined k print c.next_serial end (runs k c.executed + 1) late.0 now
        (run es (begin k print start c).0) late.1 le in
    (cc (again.0, b), (again.1, late.1.runs_of))
