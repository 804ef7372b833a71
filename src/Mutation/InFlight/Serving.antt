-- ===== src/Mutation/InFlight/Serving.antt =====
-- The invariant of running calls in apps/agent/src/v2/services/mutation-middleware.ts.
use codex_everywhere.Prelude.{
  ℕ, ◌≡◌, refl, Bool, true, false, List, ◌∷◌, Option, none, some, String, if_either, text_discrete,
  Option-cases, inl, inr, arith,
}
use codex_everywhere.Table.{lookup, modified, find}
use codex_everywhere.Table.Laws.{IsKeyed, modified-absent_key, lookup-append}
use codex_everywhere.Mutation.Receipts.{
  ReceiptRow, ReceiptStatus, pending, completed, indeterminate, receipt_key, is_status, is_expired,
  Claim, execute, claim_pending, claim_completed, claim_indeterminate, StoredOutcome,
  receipt_conflict, Result, ok, err, Invocation, claim, owns, pending_row, prune_expired,
  read_receipt, claim_row, unchanged, claim_status, claim_result, is_for,
}
use codex_everywhere.Mutation.Receipts.Laws.{Yields, claim-Kept}
use codex_everywhere.Mutation.Receipts.Settled.{claim-Stays}
use codex_everywhere.Mutation.Durable.{
  commit, stored, filed, transact, claimed, start_durable, run_handler, with_receipts,
}
use codex_everywhere.Mutation.InFlight.{Server, call_key, started}

abbrev pub carries : Option Invocation → Option ReceiptRow → Bool
carries none row = true
carries (some i) none = false
carries (some i) (some r) = owns i r

pub Yields-map {ℓ κ μ} :
    {A : Type ℓ} {P : A → Type κ} {Q : A → Type μ} (f : (a : A) → P a → Q a) (m : Result A)
    → Yields P m
    → Yields Q m
Yields-map f (err e) y = tt
Yields-map f (ok a) y = f a y

-- What a claim that is to be executed leaves.
abbrev pub Executes : Invocation → ℕ → List ReceiptRow × Claim → Type 0
Executes i now (rows, execute) = lookup receipt_key i.operation_key rows ≡ some (pending_row i now)
Executes i now (rows, _) = Unit

claim-Executes :
    (i : Invocation) (now : ℕ) (rows : List ReceiptRow) → Yields (Executes i now) (claim i now rows)
unfolding claim read_receipt
claim-Executes i now rows = go (lookup receipt_key i.operation_key kept) refl
  where
    kept : List ReceiptRow
    kept = prune_expired now rows

    go_result :
        (o : Option StoredOutcome) → Yields (Executes i now) (unchanged kept (claim_result o))
    go_result none = tt
    go_result (some o) = tt

    go_status :
        (s : ReceiptStatus) (x : ReceiptRow)
        → Yields (Executes i now) (unchanged kept (claim_status s x))
    go_status pending x = tt
    go_status indeterminate x = tt
    go_status completed x = go_result x.result

    go :
        (m : Option ReceiptRow)
        → lookup receipt_key i.operation_key kept ≡ m
        → Yields (Executes i now) (claim_row i now kept m)
    go none q = ground (arith, lookup-append receipt_key i.operation_key kept (pending_row i now))
    go (some x) q = if_either (Yields (Executes i now)) (is_for i x) (go_status x.status x) tt

module _ (k : String) where
  abbrev pub Carried : Option Invocation → List ReceiptRow → Type 0
  Carried c rows = carries c (lookup receipt_key k rows) ≡ true

  -- A transaction that leaves the pending receipts of the key as they are.
  commit-Carried {ℓ} :
      {A : Type ℓ} (c : Option Invocation) (rows : List ReceiptRow) (durable : Bool)
      (m : Result (List ReceiptRow × A))
      → Carried c rows
      → ((i : Invocation) (r : ReceiptRow)
          → c ≡ some i
          → lookup receipt_key k rows ≡ some r
          → is_status r.status pending ≡ true
          → Yields (λ p. lookup receipt_key k p.0 ≡ some r) m)
      → Carried c (commit durable rows m).0
  commit-Carried none rows durable m h stays = refl
  commit-Carried (some i) rows durable (err e) h stays = h
  commit-Carried (some i) rows durable (ok (next, a)) h stays =
      elim (Option-cases (lookup receipt_key k rows)) [
        | inl q ↦ ground (arith, q)
        | inr found ↦ ground (arith, found.1, stays i found.0 refl found.1)
      ]

pub record IsServing (s : Server) : Type 0 where
  pub keyed : IsKeyed receipt_key s.world.receipts
  pub file_keyed : IsKeyed receipt_key s.world.file
  pub calls_keyed : IsKeyed call_key s.in_flight
  pub carried : (k : String) → Carried k (lookup call_key k s.in_flight) s.world.receipts

-- A transaction on the receipts alone.
module _ {ℓ} {A : Type ℓ} (s : Server) (durable : Bool) (m : Result (List ReceiptRow × A))
    (h : IsServing s) where
  abbrev pub after : Server
  after = record s { world = transact durable m s.world }

  pub commit-IsServing :
      Yields (λ p. IsKeyed receipt_key p.0) m
      → ((k : String) (i : Invocation) (r : ReceiptRow)
          → lookup call_key k s.in_flight ≡ some i
          → lookup receipt_key k s.world.receipts ≡ some r
          → is_status r.status pending ≡ true
          → Yields (λ p. lookup receipt_key k p.0 ≡ some r) m)
      → IsServing after
  commit-IsServing keyed stays = record {
    keyed = keyed_after m keyed;
    file_keyed = file_after durable m keyed;
    calls_keyed = h.calls_keyed;
    carried = λ k.
        commit-Carried k (lookup call_key k s.in_flight) s.world.receipts durable m (h.carried k)
          (stays k);
  }
    where
      keyed_after :
          (m : Result (List ReceiptRow × A))
          → Yields (λ p. IsKeyed receipt_key p.0) m
          → IsKeyed receipt_key (commit durable s.world.receipts m).0
      keyed_after (err e) y = h.keyed
      keyed_after (ok (rows, a)) y = y

      file_after :
          (d : Bool) (m : Result (List ReceiptRow × A))
          → Yields (λ p. IsKeyed receipt_key p.0) m
          → IsKeyed receipt_key (stored d m s.world.file)
      file_after d (err e) y = h.file_keyed
      file_after false (ok (rows, a)) y = h.file_keyed
      file_after true (ok (rows, a)) y = y

pub pending_lasts :
    (end : ℕ) (r : ReceiptRow) → is_status r.status pending ≡ true → is_expired end r ≡ false
pending_lasts end r p = ground (arith, p)

module _ (s : Server) (h : IsServing s) where
  -- A call that is claimed and executed has its receipt, and the others keep theirs.
  begun-IsServing :
      (i : Invocation) (now : ℕ) (rows : List ReceiptRow)
      → lookup call_key i.operation_key s.in_flight ≡ none
      → IsKeyed receipt_key rows
      → lookup receipt_key i.operation_key rows ≡ some (pending_row i now)
      → ((k : String) → Carried k (lookup call_key k s.in_flight) rows)
      → IsServing (record {
        world = run_handler i (with_receipts rows (record s.world { file = rows }));
        in_flight = i ∷ s.in_flight;
      })
  unfolding find modified
  begun-IsServing i now rows free keyed claimed_row others = record {
    keyed = keyed;
    file_keyed = keyed;
    calls_keyed = λ k. elim (text_discrete i.operation_key k) [
      | yes p ↦ ground (arith, modified-absent_key call_key i.operation_key s.in_flight free)
      | no n ↦ ground (arith, h.calls_keyed k)
    ];
    carried = λ k. elim (text_discrete i.operation_key k) [
      | yes p ↦ ground (arith, claimed_row)
      | no n ↦ ground (arith, others k)
    ];
  }

  pub start-IsServing :
      (i : Invocation) (now : ℕ) (durable : Bool)
      → lookup call_key i.operation_key s.in_flight ≡ none
      → IsServing (started i s (start_durable i now durable s.world)).0
  unfolding start_durable
  start-IsServing i now durable free =
      go durable (claim i now s.world.receipts) (claim-IsServing durable)
        (claim-Executes i now s.world.receipts)
    where
      claim-IsServing : (d : Bool) → IsServing (after s d (claim i now s.world.receipts) h)
      claim-IsServing d =
          commit-IsServing s d (claim i now s.world.receipts) h
            (Yields-map (λ a y. y.0) (claim i now s.world.receipts)
              (claim-Kept "" now s.world.receipts h.keyed now (omega arith) i))
            (λ k j r c q p.
              claim-Stays k now r s.world.receipts h.keyed q now (omega arith)
                (pending_lasts now r p) i)

      go :
          (d : Bool) (m : Result (List ReceiptRow × Claim))
          → IsServing (after s d m h)
          → Yields (Executes i now) m
          → IsServing (started i s (claimed i (filed d m s.world) (commit d s.world.receipts m))).0
      go d (err receipt_conflict) g e = g
      go d (err _) g e = g
      go false (ok (rows, c)) g e = g
      go true (ok (rows, execute)) g e = begun-IsServing i now rows free g.keyed e g.carried
      go true (ok (rows, claim_pending t)) g e = g
      go true (ok (rows, claim_completed o)) g e = g
      go true (ok (rows, claim_indeterminate t)) g e = g
