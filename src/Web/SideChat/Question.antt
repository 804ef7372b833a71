-- ===== src/Web/SideChat/Question.antt =====
-- The question that a side chat of apps/web/src/v4/actors/side-chat-runtime.ts is started with.
use codex_everywhere.Prelude.{
  ◌≡◌, refl, true, false, List, [], ◌∷◌, Option, none, some, String, All, arith,
}
use codex_everywhere.Web.SideChat.{
  SideChatState, Event, select, show, hide, start, delete, abandon, reload, consumed, loaded,
  created, deleted, unknown, fails, side_mutation_busy, is_there, orphan_key, abandon_key,
  reduce_select, reduce_reload, reduce_start, reduce_abandon, reduce_delete, reduce_loaded,
  reduce_side_chat,
}

unfoldable pub reduce_all : List Event → SideChatState → SideChatState
unfolding reduce_side_chat
reduce_all [] s = s
reduce_all (e ∷ es) s = reduce_all es (reduce_side_chat s e).state

-- The question is not sent, and the side chat is not deleted.
abbrev pub Leaves : Event → Type 0
Leaves consumed = false ≡ true
Leaves deleted = false ≡ true
Leaves _ = Unit

module _ (parent : String) where
  record IsAsked (s : SideChatState) : Type 0 where
    pub asked : is_there s.initial_question ≡ true
    pub of_parent : s.parent_thread_id ≡ some parent

  kept :
      (s t : SideChatState)
      → IsAsked s
      → t.initial_question ≡ s.initial_question
      → t.parent_thread_id ≡ s.parent_thread_id
      → IsAsked t
  kept s t h a b = record {
    asked = ground (arith, a, h.asked);
    of_parent = ground (arith, b, h.of_parent);
  }

  start-IsAsked :
      (q o : Option String) (s : SideChatState) → IsAsked s → IsAsked (reduce_start q o s).state
  start-IsAsked q none s h = h
  start-IsAsked none (some p) s h = ground (arith, h)
  start-IsAsked (some q) (some p) s h = ground (arith, h)

  reload-IsAsked :
      (o : Option String) (s : SideChatState) → IsAsked s → IsAsked (reduce_reload o s).state
  unfolding side_mutation_busy
  reload-IsAsked none s h = h
  reload-IsAsked (some p) s h = ground (arith, h)

  delete-IsAsked :
      (o : Option String) (s : SideChatState) → IsAsked s → IsAsked (reduce_delete o s).state
  unfolding side_mutation_busy
  delete-IsAsked none s h = h
  delete-IsAsked (some p) s h = ground (arith, h)

  abandon-IsAsked :
      (o : Option String) (s : SideChatState) → IsAsked s → IsAsked (reduce_abandon o s).state
  unfolding side_mutation_busy
  abandon-IsAsked none s h = h
  abandon-IsAsked (some p) s h = go (orphan_key s.side)
    where
      go : (k : Option String) → IsAsked (abandon_key p k s).state
      go none = h
      go (some k) = ground (arith, h)

  step-IsAsked :
      (e : Event) (s : SideChatState) → Leaves e → IsAsked s → IsAsked (reduce_side_chat s e).state
  unfolding reduce_side_chat reduce_select reduce_loaded
  step-IsAsked (select p) s l h = ground (arith, h)
  step-IsAsked show s l h = kept s _ h refl refl
  step-IsAsked hide s l h = kept s _ h refl refl
  step-IsAsked (start q) s l h = start-IsAsked q s.parent_thread_id s h
  step-IsAsked delete s l h = delete-IsAsked s.parent_thread_id s h
  step-IsAsked abandon s l h = abandon-IsAsked s.parent_thread_id s h
  step-IsAsked reload s l h = reload-IsAsked s.parent_thread_id s h
  step-IsAsked consumed s l h = absurd (cc)
  step-IsAsked (loaded side) s l h = kept s (reduce_loaded side s).state h refl refl
  step-IsAsked (created side) s l h = kept s (reduce_loaded side s).state h refl refl
  step-IsAsked deleted s l h = absurd (cc)
  step-IsAsked (unknown k) s l h = kept s _ h refl refl
  step-IsAsked (fails m r u) s l h = kept s (reduce_side_chat s (fails m r u)).state h refl refl

  run-IsAsked :
      (es : List Event) (s : SideChatState) → All Leaves es → IsAsked s → IsAsked (reduce_all es s)
  unfolding reduce_all
  run-IsAsked [] s l h = h
  run-IsAsked (e ∷ es) s l h =
      run-IsAsked es (reduce_side_chat s e).state l.1 (step-IsAsked e s l.0 h)

  -- While the question of a side chat is not sent and the side chat not deleted, its parent thread stays selected,
  -- whatever is selected, loaded and reported, and although the creation fails.
  pub reduce_all-parent :
      (es : List Event) (s : SideChatState)
      → is_there s.initial_question ≡ true
      → s.parent_thread_id ≡ some parent
      → All Leaves es
      → (reduce_all es s).parent_thread_id ≡ some parent
  reduce_all-parent es s a b l =
      (run-IsAsked es s l (record { asked = a; of_parent = b })).of_parent
