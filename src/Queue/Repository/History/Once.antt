-- ===== src/Queue/Repository/History/Once.antt =====
-- The claims of an item over histories of the Queue tables, counted.
use codex_everywhere.Prelude.{
  ℕ, ◌+◌, ◌≤◌, ◌≡◌, refl, Bool, true, false, inl, inr, ◌⊎◌, ◌&&◌, List, [], ◌∷◌, String, same,
  if◌then◌else◌, arith,
}
use codex_everywhere.Queue.Rows.{pending, paused, Database, ClaimedDelivery, Result, ok, err}
use codex_everywhere.Queue.Items.{commit, stored, transaction, add, remove, pause, resume}
use codex_everywhere.Queue.Claims.{ClaimInput, claim}
use codex_everywhere.Queue.Outcomes.{
  complete, mark_indeterminate, recover_delivering, acknowledge_indeterminate,
}
use codex_everywhere.Queue.Repository.Consistent.{IsConsistent}
use codex_everywhere.Queue.Repository.History.{
  Method, adds, removes, pauses, resumes, claims, completes, doubts, recovers, acknowledges, left,
  granted, perform, Files, file_left, Change, performs, reopens, change, claims_item, retries_item,
  claims_of, retries_of,
}
use codex_everywhere.Queue.Repository.History.Invariant.{transaction-keeps, perform-IsConsistent}
use codex_everywhere.Queue.Repository.History.Spent.{
  spent_at, add-spent, remove-spent, transition-spent, claim-spent, complete-spent, doubt-spent,
  recover-spent, acknowledge-spent,
}

module _ (k : String) (db : Database) (h : IsConsistent db) where
  -- What a body spends, its transaction spends.
  keeps_spent :
      {A : Type 0} (n : ℕ) (durable : Bool) (body : Database → Result (Database × A))
      → ((next : Database) (a : A) → body db ≡ ok (next, a) → spent_at k db ≤ spent_at k next + n)
      → spent_at k db ≤ spent_at k (left (transaction durable body db)) + n
  keeps_spent n durable body keep =
      transaction-keeps (λ next. spent_at k db ≤ spent_at k next + n) durable body db (omega arith)
        keep

  claims_spent :
      (input : ClaimInput) (durable : Bool) (m : Result (Database × ClaimedDelivery))
      → claim input db ≡ m
      → spent_at k db + (if same input.item_id k && granted (commit durable db m) then 1 else 0)
        ≤ spent_at k (left (commit durable db m))
  claims_spent input durable (err e) q = ground arith
  claims_spent input durable (ok (next, c)) q = ground (arith, claim-spent k db h input next c q)

  -- One transaction.
  perform-spent :
      (m : Bool × Method)
      → spent_at k db + claims_item k m db ≤ spent_at k (perform m db) + retries_item k m
  unfolding perform claims_item retries_item pause resume transaction
  perform-spent (durable, adds input) = omega (
    arith,
    keeps_spent 0 durable (add input) (λ n a e. omega (arith, add-spent k db h input n a e)),
  )
  perform-spent (durable, removes id) = omega (
    arith,
    keeps_spent 0 durable (remove id) (λ n a e. omega (arith, remove-spent k db h id n a e)),
  )
  perform-spent (durable, pauses id now) = omega (
    arith,
    keeps_spent 0 durable (pause id now)
        (λ n a e. omega (arith, transition-spent k db h id pending paused now n a refl e)),
  )
  perform-spent (durable, resumes id now) = omega (
    arith,
    keeps_spent 0 durable (resume id now)
        (λ n a e. omega (arith, transition-spent k db h id paused pending now n a refl e)),
  )
  perform-spent (durable, claims input) =
      omega (arith, claims_spent input durable (claim input db) refl)
  perform-spent (durable, completes identity turn_id now) = omega (
    arith,
    keeps_spent 0 durable (complete identity turn_id now)
        (λ n a e. omega (arith, complete-spent k db h identity turn_id now n a e)),
  )
  perform-spent (durable, doubts identity now) = omega (
    arith,
    keeps_spent 0 durable (mark_indeterminate identity now)
        (λ n a e. omega (arith, doubt-spent k db h identity now n a e)),
  )
  perform-spent (durable, recovers now) = omega (
    arith,
    keeps_spent 0 durable (recover_delivering now)
        (λ n a e. omega (arith, recover-spent k db h now n a e)),
  )
  perform-spent (durable, acknowledges id d now) = omega (
    arith,
    keeps_spent (retries_item k (durable, acknowledges id d now)) durable
        (acknowledge_indeterminate id d now) (λ n a e. acknowledge-spent k db h id d now n a e),
  )

-- What the file holds after a transaction is what the transaction leaves, or the caller got an error
-- and the file is as it was.
stored_or :
    {A : Type 0} (durable : Bool) (db disk : Database) (m : Result (Database × A))
    → (stored durable m disk ≡ left (commit durable db m))
      ⊎ ((stored durable m disk ≡ disk) × (granted (commit durable db m) ≡ false))
stored_or durable db disk (err e) = inr (refl, refl)
stored_or true db disk (ok (next, a)) = inl refl
stored_or false db disk (ok (next, a)) = inr (refl, refl)

module _ (k : String) (f : Files) where
  abbrev IsWritten : Bool × Method → Type 0
  IsWritten m =
      (file_left m f ≡ perform m f.memory)
      ⊎ ((file_left m f ≡ f.disk) × (claims_item k m f.memory ≡ 0))

  unclaimed :
      {A : Type 0} (m : Bool × Method) (durable : Bool) (r : Result (Database × A))
      → file_left m f ≡ stored durable r f.disk
      → perform m f.memory ≡ left (commit durable f.memory r)
      → claims_item k m f.memory ≡ 0
      → IsWritten m
  unclaimed m durable r p q c = elim (stored_or durable f.memory f.disk r) [
    | inl e ↦ inl (cc (p, q, e))
    | inr (e, g) ↦ inr (cc (p, e), c)
  ]

  file_left-IsWritten : (m : Bool × Method) → IsWritten m
  unfolding file_left perform claims_item transaction
  file_left-IsWritten (durable, claims input) =
      elim (stored_or durable f.memory f.disk (claim input f.memory)) [
        | inl e ↦ inl e
        | inr (e, g) ↦ inr (e, ground (arith, g))
      ]
  file_left-IsWritten (durable, adds input) =
      unclaimed (durable, adds input) durable (add input f.memory) refl refl refl
  file_left-IsWritten (durable, removes id) =
      unclaimed (durable, removes id) durable (remove id f.memory) refl refl refl
  file_left-IsWritten (durable, pauses id now) =
      unclaimed (durable, pauses id now) durable (pause id now f.memory) refl refl refl
  file_left-IsWritten (durable, resumes id now) =
      unclaimed (durable, resumes id now) durable (resume id now f.memory) refl refl refl
  file_left-IsWritten (durable, completes identity t now) =
      unclaimed (durable, completes identity t now) durable (complete identity t now f.memory) refl
        refl refl
  file_left-IsWritten (durable, doubts identity now) =
      unclaimed (durable, doubts identity now) durable (mark_indeterminate identity now f.memory)
        refl refl refl
  file_left-IsWritten (durable, recovers now) =
      unclaimed (durable, recovers now) durable (recover_delivering now f.memory) refl refl refl
  file_left-IsWritten (durable, acknowledges id d now) =
      unclaimed (durable, acknowledges id d now) durable
        (acknowledge_indeterminate id d now f.memory) refl refl refl

spent-le-one : (k : String) (db : Database) → spent_at k db ≤ 1
spent-le-one k db = ground arith

-- Both databases are consistent, and in both as many claims are spent as were granted beyond the
-- retries.
record IsCovered (k : String) (f : Files) (granted_so_far retried : ℕ) : Type 0 where
  memory_consistent : IsConsistent f.memory
  disk_consistent : IsConsistent f.disk
  memory_spent : granted_so_far ≤ spent_at k f.memory + retried
  disk_spent : granted_so_far ≤ spent_at k f.disk + retried

performs-IsCovered :
    (k : String) (m : Bool × Method) (f : Files) (n r : ℕ)
    → IsCovered k f n r
    → IsCovered k (change (performs m) f) (n + claims_item k m f.memory) (r + retries_item k m)
unfolding change
performs-IsCovered k m f n r h =
    let kept = perform-IsConsistent m f.memory h.memory_consistent in
    let spends = perform-spent k f.memory h.memory_consistent m in
    elim (file_left-IsWritten k f m) [
      | inl e ↦ record {
        memory_consistent = kept;
        disk_consistent = rw e kept;
        memory_spent = omega (arith, spends, h.memory_spent);
        disk_spent = rw e (omega (arith, spends, h.memory_spent));
      }
      | inr (e, unclaimed) ↦ record {
        memory_consistent = kept;
        disk_consistent = rw e h.disk_consistent;
        memory_spent = omega (arith, spends, h.memory_spent);
        disk_spent = rw e (omega (arith, unclaimed, h.disk_spent));
      }
    ]

claims_bounded :
    (k : String) (cs : List Change) (f : Files) (n r : ℕ)
    → IsCovered k f n r
    → n + claims_of k cs f ≤ retries_of k cs + r + 1
unfolding claims_of retries_of change
claims_bounded k [] f n r h = omega (arith, h.memory_spent, spent-le-one k f.memory)
claims_bounded k (performs m ∷ cs) f n r h = omega (
  arith,
  claims_bounded k cs (change (performs m) f) (n + claims_item k m f.memory) (r + retries_item k m)
      (performs-IsCovered k m f n r h),
)
claims_bounded k (reopens ∷ cs) f n r h = claims_bounded k cs (change reopens f) n r (record {
  memory_consistent = h.disk_consistent;
  disk_consistent = h.disk_consistent;
  memory_spent = h.disk_spent;
  disk_spent = h.disk_spent;
})

-- From consistent tables in memory and in the file, over any transactions, of which any fail or
-- cannot be written, and any restarts, after which the tables are what the file holds: the number of
-- times that the claim of a delivery of an item is granted is at most one more than the number of
-- retries that the user asks for.
pub claims-le-retries :
    (k : String) (cs : List Change) (f : Files)
    → IsConsistent f.memory
    → IsConsistent f.disk
    → claims_of k cs f ≤ retries_of k cs + 1
claims-le-retries k cs f h d =
    let b = claims_bounded k cs f 0 0 (record {
      memory_consistent = h;
      disk_consistent = d;
      memory_spent = omega arith;
      disk_spent = omega arith;
    }) in
    omega (arith, b)
