-- ===== src/Relay/HighWater.antt =====
-- How far the authorizations of apps/relay/src/relay-server.ts reach, over any run.
use codex_everywhere.Prelude.{
  ℕ, ◌<◌, ◌≡◌, Bool, true, false, List, Option, none, some, String, same, sym, subst, same_iff,
  Bool-cases, All, leb, if_either, inl, inr, sym, subst, arith,
}
use codex_everywhere.Table.{lookup}
use codex_everywhere.Table.Maps.{lookup-put, lookup-delete_key}
use codex_everywhere.Relay.{
  Generation, Authorization, Relay, route_key, authorization_key, PublicHostProfile,
}
use codex_everywhere.Relay.Authorizations.{
  is_live, prune_found, prune, expire, refresh, authorization_of, is_none, authorize,
  is_past_generation, is_monotonic,
}
use codex_everywhere.Relay.Register.{
  Capability, Secrets, may_register, with_route, without_previous,
}
use codex_everywhere.Relay.Steps.{Step, run}
use codex_everywhere.Relay.Kept.{IsKept}
use codex_everywhere.Relay.Kept.Runs.{HappensIn, run-kept}

-- There is an authorization, and it runs to the time or longer.
abbrev pub lasts_to : ℕ → Option Authorization → Bool
lasts_to t none = false
lasts_to t (some a) = elim a.generation.expires_at [ none ↦ false | some u ↦ leb t u ]

abbrev pub IsBounded : Capability → Type 0
IsBounded c = is_none c.generation.expires_at ≡ false

module _ (t : ℕ) (k : String) where
  abbrev Lasts : Relay → Type 0
  Lasts r = lasts_to t (authorization_of k r) ≡ true

  expire_other : (j : String) (r : Relay) → same j k ≡ false → Lasts r → Lasts (expire j r)
  unfolding expire
  expire_other j r n h =
      ground (arith, h, n, lookup-delete_key authorization_key k j r.authorizations)

  refresh-Lasts : (j : String) (now : ℕ) (r : Relay) → now < t → Lasts r → Lasts (refresh j now r)
  unfolding refresh
  refresh-Lasts j now r early h = elim (Bool-cases (same j k)) [
    | inl e ↦
        subst (λ (x : String). Lasts (refresh x now r)) (sym ((same_iff j k).0 e))
          (ground (arith, early, h))
    | inr n ↦
        if_either Lasts (is_past_generation now (lookup authorization_key j r.authorizations))
          (expire_other j r n h) h
  ]

  prune_other :
      (j : String) (a : Option Authorization) (r : Relay)
      → same j k ≡ false
      → Lasts r
      → Lasts (prune_found j a r)
  prune_other j a r n h =
      ground (arith, h, n, lookup-delete_key authorization_key k j r.authorizations)

  prune-Lasts : (j : String) (r : Relay) → Lasts r → Lasts (prune j r)
  unfolding prune
  prune-Lasts j r h = elim (Bool-cases (same j k)) [
    | inl e ↦
        subst (λ (x : String). Lasts (prune x r)) (sym ((same_iff j k).0 e)) (ground (arith, h))
    | inr n ↦
        if_either Lasts (is_live j r) h
          (prune_other j (lookup authorization_key j r.authorizations) r n h)
  ]

  monotonic-lasts :
      (a : Authorization) (g : Generation)
      → is_none g.expires_at ≡ false
      → is_monotonic a.generation g ≡ true
      → lasts_to t (some a) ≡ true
      → lasts_to t (some (record { route_id = k; generation = g })) ≡ true
  unfolding is_monotonic
  monotonic-lasts a g b m h = ground (arith, b, m, h)

  -- A registration replaces the authorization by one that lasts.
  registers-Lasts :
      (s : ℕ) (c : Capability) (f : Option PublicHostProfile) (r q : Relay)
      → IsBounded c
      → may_register c (authorization_of c.route_id r) (lookup route_key c.route_id r.routes) ≡ true
      → authorize c.route_id c.generation (without_previous c r) ≡ some q
      → Lasts r
      → Lasts (with_route s c f q)
  unfolding authorize
  registers-Lasts s c f r q b ok e h = elim (Bool-cases (same c.route_id k)) [
    | inl mine ↦
        replaced
          (subst (λ (x : String). lasts_to t (authorization_of x r) ≡ true)
            (sym ((same_iff c.route_id k).0 mine)) h)
          mine
    | inr other ↦ ground (arith, e, h, other, lookup-put authorization_key k fresh r.authorizations)
  ]
    where
      fresh : Authorization
      fresh = record { route_id = c.route_id; generation = c.generation }

      monotonic :
          (a : Option Authorization)
          → lasts_to t a ≡ true
          → may_register c a (lookup route_key c.route_id r.routes) ≡ true
          → lasts_to t (some fresh) ≡ true
      monotonic none l m = cc l
      monotonic (some a) l m = ground (arith, l, m, monotonic-lasts a c.generation b)

      replaced :
          lasts_to t (authorization_of c.route_id r) ≡ true
          → same c.route_id k ≡ true
          → Lasts (with_route s c f q)
      replaced l mine = ground (
        arith,
        e,
        mine,
        monotonic (authorization_of c.route_id r) l ok,
        lookup-put authorization_key k fresh r.authorizations,
      )

  lasting : IsKept Lasts (λ now. now < t) IsBounded
  lasting = record {
    elsewhere = λ r q a b c d e f g h. rw c h;
    refreshes = refresh-Lasts;
    prunes = prune-Lasts;
    renames = λ c r h. h;
    registers = λ s c f r q b free ok e h. registers-Lasts s c f r q b ok e h;
    waits = λ s id j a route r e free h. h;
    sets_up = λ s p a r e f h. h;
    bridges = λ serial x a r e f h. h;
    drops_pending = λ id r h. h;
    drops_setup = λ serial r h. h;
    drops_tunnel = λ serial r h. h;
    unregisters = λ s route r e h. h;
  }

-- Where every capability has an end, a route whose authorization runs to a time or longer keeps one that does
-- until then, whatever is registered, disconnected or pruned.
pub run-lasts_to :
    (secrets : Secrets) (t : ℕ) (k : String) (es : List Step) (r : Relay)
    → ((text : String) (now : ℕ) (c : Capability)
        → secrets.capability_of text now ≡ some c
        → IsBounded c)
    → All (HappensIn (λ now. now < t)) es
    → lasts_to t (authorization_of k r) ≡ true
    → lasts_to t (authorization_of k (run secrets es r)) ≡ true
run-lasts_to secrets t k es r bounded early h =
    run-kept (λ q. lasts_to t (authorization_of k q) ≡ true) (λ now. now < t) IsBounded
      (lasting t k) secrets bounded es r early h
