-- ===== src/Mutation/Ephemeral/Kept.antt =====
-- How long an ephemeral result of apps/agent/src/v2/services/mutation-middleware.ts is found.
use codex_everywhere.Prelude.{
  ℕ, ◌+◌, ◌≤◌, ◌<◌, ◌≡◌, ◌≢◌, refl, ◌∙◌, Bool, true, false, List, [], ◌∷◌, ◌++◌, Option, none, some,
  String, same, ◌==◌, length, length-append, if◌then◌else◌, if_either, arith, text_discrete,
}
use codex_everywhere.Table.{delete, at, lookup, find}
use codex_everywhere.Table.Laws.{key-lookup}
use codex_everywhere.Mutation.InFlight.Once.{runs}
use codex_everywhere.Mutation.Ephemeral.Bound.{length-delete}
use codex_everywhere.Mutation.Receipts.{StoredOutcome, past}
use codex_everywhere.Mutation.Ephemeral.{
  Entry, Cache, Begun, awaits, key_reused, entry_key, touch, evict, new_entry, started, existing,
  begin, settled_entry, settled, settle, Event, begins, settles, handle, ephemeral_result_ttl_ms,
}

-- How many entries are to be evicted later than that of a key.
unfoldable pub behind : String → List Entry → ℕ
behind k [] = 0
behind k (e ∷ es) = let rest = behind k es in if same e.key k then length es else rest

-- The entry of a key, and how late it is evicted.
abbrev pub Found : String → Entry → ℕ → List Entry → Type 0
Found k e n es = (lookup entry_key k es ≡ some e) × (behind k es ≤ n)

evict-Found :
    (k : String) (e : Entry) (n limit : ℕ) (es : List Entry)
    → n + 1 < limit
    → Found k e n es
    → Found k e n (evict limit es)
unfolding evict find behind
evict-Found k e n limit [] lt h = cc h.0
evict-Found k e n limit (x ∷ xs) lt h = ground (arith, evict-Found k e n limit xs, h.0, h.1)

append-Found :
    (k : String) (e x : Entry) (n : ℕ) (es : List Entry)
    → Found k e n es
    → Found k e (n + 1) (es ++ x ∷ [])
unfolding find behind
append-Found k e x n [] h = cc h.0
append-Found k e x n (y ∷ ys) h =
    ground (arith, append-Found k e x n ys, h.0, h.1, length-append ys (x ∷ []))

delete-Found :
    (k j : String) (e : Entry) (n : ℕ) (es : List Entry)
    → j ≢ k
    → Found k e n es
    → Found k e n (delete (at entry_key j) es)
unfolding find behind delete
delete-Found k j e n [] ne h = h
delete-Found k j e n (y ∷ ys) ne h =
    ground (arith, delete-Found k j e n ys, h.0, h.1, length-delete j ys)

pub last-Found :
    (k : String) (f : Entry) (es : List Entry)
    → f.key ≡ k
    → Found k f 0 (delete (at entry_key k) es ++ f ∷ [])
unfolding find behind delete
last-Found k f [] p = ground (arith, p)
last-Found k f (y ∷ ys) p = ground (arith, last-Found k f ys p)

last-at :
    (k x : String) (f : Entry) (es : List Entry)
    → f.key ≡ k
    → x ≡ k
    → Found k f 0 (delete (at entry_key x) es ++ f ∷ [])
last-at k x f es p r = rw r (last-Found k f es p)

-- What is expired stays expired.
past-later : (t : Option ℕ) (now end : ℕ) → now ≤ end → past t now ≡ true → past t end ≡ true
past-later t now end le h = ground (arith, h)

module _ (k fingerprint : String) (serial end ran : ℕ) where
  -- The entry of the key is kept with at most n entries behind it, and its handler ran `ran` times.
  pub record IsKept (n : ℕ) (c : Cache) : Type 0 where
    pub entry : Entry
    pub found : Found k entry n c.entries
    pub print : same entry.fingerprint fingerprint ≡ true
    pub number : entry.serial ≡ serial
    pub fresh : past entry.expires_at end ≡ false
    pub runs_of : runs k c.executed ≡ ran

  -- The entry itself, as another Map has it.
  moved :
      (n m : ℕ) (c next : Cache) (h : IsKept n c)
      → Found k h.entry m next.entries
      → runs k next.executed ≡ ran
      → IsKept m next
  moved n m c next h f r = record {
    entry = h.entry;
    found = f;
    print = h.print;
    number = h.number;
    fresh = h.fresh;
    runs_of = r;
  }

  -- Another key's entry becomes the last of the Map.
  pushed :
      (j : String) (f : Entry) (n : ℕ) (c : Cache) (h : IsKept n c)
      → f.key ≡ j
      → j ≢ k
      → Found k h.entry (n + 1) (touch f c.entries)
  unfolding touch
  pushed j f n c h p ne =
      append-Found k h.entry f n (delete (at entry_key f.key) c.entries)
        (delete-Found k f.key h.entry n c.entries (λ q. ne (cc (p, q))) h.found)

  started-IsKept :
      (j print : String) (n : ℕ) (c next : Cache) (h : IsKept n c)
      → n + 1 < c.limit
      → j ≢ k
      → next.entries ≡ evict c.limit c.entries ++ new_entry j print c.next_serial ∷ []
      → next.executed ≡ j ∷ c.executed
      → IsKept (n + 1) next
  unfolding runs
  started-IsKept j print n c next h lt ne p q =
      moved n (n + 1) c next h
        (rw p (
          append-Found k h.entry (new_entry j print c.next_serial) n (evict c.limit c.entries)
            (evict-Found k h.entry n c.limit c.entries lt h.found)))
        (rw q (ground (arith, ne, h.runs_of)))

  -- An entry with the key is the one that is kept.
  kept_one :
      (j : String) (e : Entry) (n : ℕ) (c : Cache) (h : IsKept n c)
      → lookup entry_key j c.entries ≡ some e
      → j ≡ k
      → e ≡ h.entry
  kept_one j e n c h q p = cc (q, p, h.found.0)

  pub limit_kept : (e : Event) (c : Cache) → (handle e c).limit ≡ c.limit
  unfolding handle begin settle
  limit_kept (begins j print now) c = ground arith
  limit_kept (settles j s o now) c = ground arith

  module _ (n : ℕ) (c : Cache) (h : IsKept n c) where
    weaker : IsKept (n + 1) c
    weaker = moved n (n + 1) c c h (h.found.0, omega (arith, h.found.1)) h.runs_of

    known_entry :
        (j : String) (e : Entry)
        → lookup entry_key j c.entries ≡ some e
        → j ≡ k
        → (same e.fingerprint fingerprint ≡ true)
          × ((e.serial ≡ serial) × (past e.expires_at end ≡ false))
    known_entry j e q p = rw (kept_one j e n c h q p) (h.print, (h.number, h.fresh))

    -- The entry that is found under a key is touched, with what is known of it.
    touched-IsKept :
        (j : String) (e f : Entry)
        → lookup entry_key j c.entries ≡ some e
        → f.key ≡ j
        → (j ≡ k
            → (same f.fingerprint fingerprint ≡ true)
              × ((f.serial ≡ serial) × (past f.expires_at end ≡ false)))
        → IsKept (n + 1) (record c { entries = touch f c.entries })
    unfolding touch
    touched-IsKept j e f q p known = elim (text_discrete j k) [
      | yes r ↦ record {
        entry = f;
        found = last r;
        print = (known r).0;
        number = (known r).1.0;
        fresh = (known r).1.1;
        runs_of = h.runs_of;
      }
      | no ne ↦
          moved n (n + 1) c (record c { entries = touch f c.entries }) h (pushed j f n c h p ne)
            h.runs_of
    ]
      where
        last : j ≡ k → Found k f (n + 1) (delete (at entry_key f.key) c.entries ++ f ∷ [])
        last r = let l = last-at k f.key f c.entries (p ∙ r) (p ∙ r) in (l.0, omega (arith, l.1))

    pub begin-IsKept :
        (j print : String) (now : ℕ)
        → now ≤ end
        → n + 1 < c.limit
        → IsKept (n + 1) (begin j print now c).0
    unfolding begin
    begin-IsKept j print now le lt = go (lookup entry_key j c.entries) refl
      where
        other : lookup entry_key j c.entries ≡ none → j ≢ k
        other q p = cc (q, p, h.found.0)

        go :
            (m : Option Entry)
            → lookup entry_key j c.entries ≡ m
            → IsKept (n + 1) (existing j print now c m).0
        go none q = started-IsKept j print n c (started j print c).0 h lt (other q) refl refl
        go (some e) q = by_age (past e.expires_at now) refl
          where
            known :
                j ≡ k
                → (same e.fingerprint fingerprint ≡ true)
                  × ((e.serial ≡ serial) × (past e.expires_at end ≡ false))
            known p = known_entry j e q p

            dropped : Cache
            dropped = record c { entries = delete (at entry_key j) c.entries }

            expired : past e.expires_at now ≡ true → j ≢ k
            expired old p = cc (past-later e.expires_at now end le old, (known p).1.1)

            by_age :
                (b : Bool)
                → past e.expires_at now ≡ b
                → IsKept
                    (n + 1)
                    (if b
                      then started j print dropped
                      else (if same e.fingerprint print
                          then (record c { entries = touch e c.entries }, awaits e.serial)
                          else (c, key_reused))).0
            by_age true old =
                let ne = expired old in
                let d =
                  moved n n c dropped h (delete-Found k j h.entry n c.entries ne h.found)
                    h.runs_of in
                started-IsKept j print n dropped (started j print dropped).0 d lt ne refl refl
            by_age false young =
                if_either (λ (r : Cache × Begun). IsKept (n + 1) r.0) (same e.fingerprint print)
                  (touched-IsKept j e e q (key-lookup entry_key j c.entries e q) known) weaker

    pub settle-IsKept :
        (j : String) (s : ℕ) (o : StoredOutcome) (now : ℕ)
        → end < now + ephemeral_result_ttl_ms
        → IsKept (n + 1) (settle j s o now c).0
    unfolding settle
    settle-IsKept j s o now lt = go (lookup entry_key j c.entries) refl
      where
        go :
            (m : Option Entry)
            → lookup entry_key j c.entries ≡ m
            → IsKept (n + 1) (settled s o now c m)
        go none q = weaker
        go (some e) q =
            if_either (IsKept (n + 1)) (e.serial == s)
              (touched-IsKept j e (settled_entry o now e) q (key-lookup entry_key j c.entries e q)
                (λ p. ((known_entry j e q p).0, ((known_entry j e q p).1.0, ground (arith, lt)))))
              weaker
