-- ===== src/Web/ComposerActor/Drafts.antt =====
-- What becomes of the texts that the user writes.
use codex_everywhere.Prelude.{
  ◌≡◌, refl, Bool, true, false, ◌&&◌, ◌||◌, not, List, [], ◌∷◌, Option, none, some, String, same,
  trim, is_empty, if◌then◌else◌, if_either, All, arith,
}
use codex_everywhere.Web.ComposerActor.{
  idle, submitting, Submission, ComposerState, Event, draft, submit, sent, unknown, reconcile,
  resolved, manual, acknowledge_manual, failed, send, set_draft, is_idle, is_thread, restore_at,
  restore_submitted_draft, reduce_composer, Move, quietly, starting,
}

-- The events that may write the draft of a thread.
abbrev pub writes : String → ComposerState → Event → Bool
writes t s (draft u v) = same u t
writes t s (submit kind u) = same u t
writes t s (failed m) = is_thread t s.thread_id
writes t s (acknowledge_manual) = is_thread t s.thread_id
writes t s _ = false

restore_else :
    (t : String) (s : ComposerState) (thread text : Option String)
    → is_thread t thread ≡ false
    → restore_at s thread text t ≡ s.drafts t
restore_else t s none text h = refl
restore_else t s (some u) none h = refl
restore_else t s (some u) (some x) h = ground (arith, h)

-- An event leaves the draft of every thread that it does not concern: it writes that of the thread it
-- names, or gives back that of the thread whose submission failed.
pub others-kept :
    (t : String) (s : ComposerState) (key : String) (e : Event)
    → writes t s e ≡ false
    → (reduce_composer s (key, e)).state.drafts t ≡ s.drafts t
unfolding reduce_composer restore_submitted_draft
others-kept t s key (draft u v) h = ground (arith, h)
others-kept t s key (submit kind u) h =
    if_either (λ (m : Move). m.state.drafts t ≡ s.drafts t)
      (not (is_idle s.status) || is_empty (trim (s.drafts u))) refl (ground (arith, h))
others-kept t s key sent h = refl
others-kept t s key resolved h = refl
others-kept t s key (unknown k) h = refl
others-kept t s key (reconcile k) h = refl
others-kept t s key (manual m) h = refl
others-kept t s key (failed m) h = restore_else t s s.thread_id s.submitted_text h
others-kept t s key acknowledge_manual h =
    ground (arith, restore_else t s s.thread_id s.submitted_text h)

-- A submission that has not ended: its thread and text are kept, and no newer draft was written.
pub record IsPending (thread text : String) (s : ComposerState) : Type 0 where
  pub not_idle : is_idle s.status ≡ false
  pub of_thread : s.thread_id ≡ some thread
  pub of_text : s.submitted_text ≡ some text
  pub no_draft : s.drafts thread ≡ ""

-- What may come meanwhile: other threads' drafts, further submissions, and what the status says as long
-- as it does not say how the submission ended.
abbrev pub meanwhile : String → Event → Bool
meanwhile thread (draft u v) = not (same u thread)
meanwhile thread (submit kind u) = true
meanwhile thread (unknown k) = true
meanwhile thread (reconcile k) = true
meanwhile thread (manual m) = true
meanwhile thread _ = false

unfoldable pub reduce_all : List (String × Event) → ComposerState → ComposerState
unfolding reduce_composer
reduce_all [] s = s
reduce_all (e ∷ es) s = reduce_all es (reduce_composer s e).state

abbrev pub IsMeanwhile : String → String × Event → Type 0
IsMeanwhile thread (key, e) = meanwhile thread e ≡ true

meanwhile-IsPending :
    (thread text key : String) (e : Event) (s : ComposerState)
    → meanwhile thread e ≡ true
    → IsPending thread text s
    → IsPending thread text (reduce_composer s (key, e)).state
unfolding reduce_composer
meanwhile-IsPending thread text key (draft u v) s m h = refused (is_idle s.status) h.not_idle
  where
    written : ComposerState
    written = record s { drafts = set_draft u v s.drafts }

    refused :
        (b : Bool)
        → b ≡ false
        → IsPending thread text
            (if b && is_thread u s.thread_id
              then quietly
                  (record s { drafts = set_draft u v s.drafts; error = none; thread_id = none })
              else quietly written).state
    refused true p = cc p
    refused false p = record {
      not_idle = h.not_idle;
      of_thread = h.of_thread;
      of_text = h.of_text;
      no_draft = ground (arith, m, h.no_draft);
    }
meanwhile-IsPending thread text key (submit kind u) s m h = refused (is_idle s.status) h.not_idle (
    starting
      (record {
        status = submitting;
        drafts = set_draft u "" s.drafts;
        thread_id = some u;
        operation_key = some key;
        submitted_text = some (trim (s.drafts u));
        submission = some kind;
        error = none;
      })
      (send kind u (trim (s.drafts u)) key))
  where
    refused :
        (b : Bool)
        → b ≡ false
        → (next : Move)
        → IsPending thread text
            (if not b || is_empty (trim (s.drafts u)) then quietly s else next).state
    refused true p next = cc p
    refused false p next = h
meanwhile-IsPending thread text key (unknown k) s m h = record {
  not_idle = refl;
  of_thread = h.of_thread;
  of_text = h.of_text;
  no_draft = h.no_draft;
}
meanwhile-IsPending thread text key (reconcile k) s m h = record {
  not_idle = refl;
  of_thread = h.of_thread;
  of_text = h.of_text;
  no_draft = h.no_draft;
}
meanwhile-IsPending thread text key (manual k) s m h = record {
  not_idle = refl;
  of_thread = h.of_thread;
  of_text = h.of_text;
  no_draft = h.no_draft;
}
meanwhile-IsPending thread text key sent s m h = cc m
meanwhile-IsPending thread text key resolved s m h = cc m
meanwhile-IsPending thread text key (failed k) s m h = cc m
meanwhile-IsPending thread text key acknowledge_manual s m h = cc m

reduce_all-IsPending :
    (thread text : String) (es : List (String × Event)) (s : ComposerState)
    → All (IsMeanwhile thread) es
    → IsPending thread text s
    → IsPending thread text (reduce_all es s)
unfolding reduce_all
reduce_all-IsPending thread text [] s m h = h
reduce_all-IsPending thread text ((key, e) ∷ es) s m h =
    reduce_all-IsPending thread text es (reduce_composer s (key, e)).state m.1
      (meanwhile-IsPending thread text key e s m.0 h)

submit-IsPending :
    (kind : Submission) (thread key : String) (s : ComposerState)
    → s.status ≡ idle
    → is_empty (trim (s.drafts thread)) ≡ false
    → IsPending thread (trim (s.drafts thread)) (reduce_composer s (key, submit kind thread)).state
unfolding reduce_composer
submit-IsPending kind thread key s i n =
    go (is_idle s.status) (is_empty (trim (s.drafts thread))) (cc i) n
  where
    go :
        (b e : Bool)
        → b ≡ true
        → e ≡ false
        → IsPending thread
            (trim (s.drafts thread))
            (if not b || e
              then quietly s
              else starting
                  (record {
                    status = submitting;
                    drafts = set_draft thread "" s.drafts;
                    thread_id = some thread;
                    operation_key = some key;
                    submitted_text = some (trim (s.drafts thread));
                    submission = some kind;
                    error = none;
                  })
                  (send kind thread (trim (s.drafts thread)) key)).state
    go true false p q = record {
      not_idle = refl;
      of_thread = refl;
      of_text = refl;
      no_draft = ground arith;
    }
    go true true p q = cc q
    go false e p q = cc p

restored :
    (thread text : String) (s : ComposerState)
    → IsPending thread text s
    → restore_submitted_draft s thread ≡ text
unfolding restore_submitted_draft
restored thread text s h = go s.thread_id s.submitted_text h.of_thread h.of_text
  where
    taken :
        (t x : String) (b : Bool)
        → b ≡ true
        → t ≡ thread
        → x ≡ text
        → (if not b then s.drafts else set_draft t x s.drafts) thread ≡ text
    taken t x true e p q = ground (arith, p, q)
    taken t x false e p q = cc e

    empty_at : (t : String) → t ≡ thread → is_empty (s.drafts t) ≡ true
    empty_at t p = rw (p, h.no_draft) refl

    go : (t x : Option String) → t ≡ some thread → x ≡ some text → restore_at s t x thread ≡ text
    go none x p q = cc p
    go (some t) none p q = cc q
    go (some t) (some x) p q = taken t x (is_empty (s.drafts t)) (empty_at t (cc p)) (cc p) (cc q)

-- When a submission that was taken fails, after any drafts of other threads but none of its own,
-- further submissions and reports that its outcome is open, the composer is idle and the thread's
-- draft is the text that was sent.
pub submit-fails_back :
    (kind : Submission) (thread key k message : String) (es : List (String × Event))
    (s : ComposerState)
    → s.status ≡ idle
    → is_empty (trim (s.drafts thread)) ≡ false
    → All (IsMeanwhile thread) es
    → let later = reduce_all es (reduce_composer s (key, submit kind thread)).state in
      let back = (reduce_composer later (k, failed message)).state in
      (back.status ≡ idle) × (back.drafts thread ≡ trim (s.drafts thread))
unfolding reduce_composer
submit-fails_back kind thread key k message es s i n m =
    let h =
      reduce_all-IsPending thread (trim (s.drafts thread)) es
        (reduce_composer s (key, submit kind thread)).state m
        (submit-IsPending kind thread key s i n) in
    (
      refl,
      restored thread (trim (s.drafts thread))
          (reduce_all es (reduce_composer s (key, submit kind thread)).state) h,
    )
