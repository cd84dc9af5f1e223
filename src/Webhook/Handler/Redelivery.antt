-- ===== src/Webhook/Handler/Redelivery.antt =====
-- A delivery that was forwarded once: what another one with its key meets.
use openclaw_control_plane.Common.{
  String, Bool, true, false, Option, none, some, [], ◌∷◌, ◌≡◌, refl, sym, ap, subst, ◌∙◌, arith,
  string_eq, contains, and_then, if◌then◌else◌, Bool-cases, Option-cases, inl, inr, ◌⊎◌, ℕ,
}
use openclaw_control_plane.Json.{Json}
use openclaw_control_plane.Effects.Platform.{Reply}
use openclaw_control_plane.Webhook.Host.{Host}
use openclaw_control_plane.Webhook.Forward.{is_forwarded, with_delivery_id}
use openclaw_control_plane.Webhook.Handler.{
  Dispatch, not_enrolled, duplicate, config_error, no_match, forwarded, Store, delete_key,
  plan_dispatch, Request, Pending, Responded, pending_of, accept, respond, release,
}
use openclaw_control_plane.Webhook.Handler.Stages.{
  eligible_key, forwarded_key, Effect, plan-Effect, Examined, refusal, verified, conclude,
  concluded, respond-examine,
}

-- What becomes of a delivery, by its eligible key and the store.
abbrev pub Kept : Store → Option String → Responded → Type 0
Kept store key responded =
    (responded.store ≡ store)
    × (responded.pending ≡ none)
    × ((k : String) → key ≡ some k → contains store k ≡ true)

abbrev pub Added : Store → Option String → Option Pending → Responded → Type 0
Added store key offer responded =
    (p : Pending) × (key ≡ some p.dispatch_key)
    × (offer ≡ some p)
    × (responded.pending ≡ some p)
    × (responded.store ≡ p.dispatch_key ∷ store)
    × (contains store p.dispatch_key ≡ false)

module _ (host : Host) (r : Request) where
  -- A plan forwards under the key that the delivery waits with.
  pending_of-key :
      (payload : Option Json) (d : Dispatch) (p : Pending)
      → pending_of r payload d ≡ some p
      → d ≡ forwarded p.dispatch_key
  unfolding pending_of
  pending_of-key payload (forwarded key) p h = elim (Option-cases r.event) [
    | inl e ↦ cc (rw e at h)
    | inr (event, e) ↦ cc (rw e at h)
  ]
  pending_of-key payload not_enrolled p h = cc
  pending_of-key payload duplicate p h = cc
  pending_of-key payload config_error p h = cc
  pending_of-key payload no_match p h = cc

  eligible_event :
      (o : Option String) (payload : Option Json) (key : String)
      → eligible_key host o payload ≡ some key
      → (event : String) × (o ≡ some event)
  unfolding eligible_key
  eligible_event none payload key h = cc
  eligible_event (some event) payload key h = (event, refl)

  eligible-pending_of :
      (payload : Option Json) (key : String)
      → eligible_key host r.event payload ≡ some key
      → (p : Pending) × (pending_of r payload (forwarded key) ≡ some p) × (p.dispatch_key ≡ key)
  unfolding pending_of eligible_event
  eligible-pending_of payload key h =
      let (event, e) = eligible_event r.event payload key h in
      (
        record { dispatch_key = key; event = event; payload = with_delivery_id r.delivery payload },
        rw e,
        refl,
      )

  not_pending :
      (payload : Option Json) (d : Dispatch)
      → forwarded_key d ≡ none
      → pending_of r payload d ≡ none
  unfolding pending_of
  not_pending payload (forwarded key) h = cc
  not_pending payload not_enrolled h = refl
  not_pending payload duplicate h = refl
  not_pending payload config_error h = refl
  not_pending payload no_match h = refl

  abbrev offered : Option Json → Option String → Option Pending
  offered payload key = and_then key λ k. pending_of r payload (forwarded k)

  accept_fate :
      (payload : Option Json) (store : Store) (plan : Dispatch × Store) (key : Option String)
      → eligible_key host r.event payload ≡ key
      → Effect store key plan
      → Kept store key (accept r payload plan)
        ⊎ Added store key (offered payload key) (accept r payload plan)
  unfolding accept
  accept_fate payload store (d, s) none eligible (e, kept) =
      inl (kept, not_pending payload d e, λ k h. cc)
  accept_fate payload store plan (some key) eligible e = elim (Bool-cases (contains store key)) [
    | inl old ↦
        let same : plan ≡ (duplicate, store) = rw old at e in
        inl (
          ap (λ x. x.1) same,
          waiting same (not_pending payload duplicate refl),
          λ k h. let named : key ≡ k = cc in subst (λ t. contains store t ≡ true) named old,
        )
    | inr new ↦
        let same : plan ≡ (forwarded key, key ∷ store) = rw new at e in
        let (p, pending, named) = eligible-pending_of payload key eligible in
        inr (
          p,
          ap some (sym named),
          pending,
          waiting same pending,
          ap (λ x. x.1) same ∙ ap (λ k. k ∷ store) (sym named),
          subst (λ t. contains store t ≡ false) (sym named) new,
        )
  ]
    where
      waiting :
          {d : Dispatch × Store} {o : Option Pending}
          → plan ≡ d
          → pending_of r payload d.0 ≡ o
          → (accept r payload plan).pending ≡ o
      waiting e h = ap (λ (x : Dispatch × Store). pending_of r payload x.0) e ∙ h

  -- The key under which a delivery may be forwarded, where it is verified
  pub examined_key : Examined → Option String
  examined_key (refusal answer) = none
  examined_key (verified payload) = eligible_key host r.event payload

  -- What waits for the agent, where the store lets it
  offer : Examined → Option Pending
  offer (refusal answer) = none
  offer (verified payload) = offered payload (eligible_key host r.event payload)

  conclude_fate :
      (store : Store) (x : Examined)
      → Kept store (examined_key x) (conclude host r store x)
        ⊎ Added store (examined_key x) (offer x) (conclude host r store x)
  unfolding conclude examined_key offer
  conclude_fate store (refusal answer) = inl (refl, refl, λ k h. cc)
  conclude_fate store (verified payload) =
      accept_fate payload store (plan_dispatch host r.event payload store) _ refl
        (plan-Effect host r.event payload store)

  concluded-some :
      (store : Store) (o : Option Examined) (responded : Responded)
      → concluded host r store o ≡ some responded
      → (x : Examined) × (o ≡ some x) × (conclude host r store x ≡ responded)
  concluded-some store none responded h = cc
  concluded-some store (some x) responded h = (x, refl, cc)

  -- An answered request keeps the store, or waits under a key that it adds.
  pub respond_fate :
      (secret : Option String) (store : Store) (responded : Responded)
      → respond host secret r store ≡ some responded
      → (key : Option String) × (o : Option Pending) × (Kept store key responded
          ⊎ Added store key o responded)
  respond_fate secret store responded h =
      let (x, e, same) =
        concluded-some store _ responded (sym (respond-examine host r secret store) ∙ h) in
      (
        examined_key x,
        offer x,
        subst (λ y. Kept store (examined_key x) y ⊎ Added store (examined_key x) (offer x) y) same
            (conclude_fate store x),
      )

  -- The same request over another store
  redelivered :
      (x : Examined) (p : Pending) (store other : Store)
      → (conclude host r store x).pending ≡ some p
      → (conclude host r other x).pending ≡ (if contains other p.dispatch_key then none else some p)
  redelivered x p store other h = first (conclude_fate store x) (conclude_fate other x)
    where
      first :
          Kept store (examined_key x) (conclude host r store x)
            ⊎ Added store (examined_key x) (offer x) (conclude host r store x)
          → Kept other (examined_key x) (conclude host r other x)
            ⊎ Added other (examined_key x) (offer x) (conclude host r other x)
          → (conclude host r other x).pending
            ≡ (if contains other p.dispatch_key then none else some p)
      first (inl (s, q, k)) fate = cc
      first (inr (p', key, off, q, s, c)) (inl (s', q', k')) =
          let same : p' ≡ p = cc in
          let old : contains other p.dispatch_key ≡ true =
            subst (λ (t : Pending). contains other t.dispatch_key ≡ true) same
              (k' p'.dispatch_key key) in
          q' ∙ rw old
      first (inr (p', key, off, q, s, c)) (inr (p'', key'', off'', q'', s'', c'')) =
          let same : p'' ≡ p = cc in
          let new : contains other p.dispatch_key ≡ false =
            subst (λ (t : Pending). contains other t.dispatch_key ≡ false) same c'' in
          q'' ∙ ap some same ∙ rw new

contains-delete_key : (key : String) (store : Store) → contains (delete_key key store) key ≡ false
unfolding delete_key
contains-delete_key key [] = refl
contains-delete_key key (k ∷ store) = ground (arith, contains-delete_key key store)

contains-release :
    (key : String) (reached : Bool) (store : Store)
    → contains store key ≡ true
    → contains (release key reached store) key ≡ reached
unfolding release
contains-release key true store h = h
contains-release key false store h = contains-delete_key key store

-- After the forward of a delivery has ended, while the store held its key, the same request is
-- answered again, and is forwarded again just where the agent was not reached.
pub respond-release :
    (host : Host) (secret : Option String) (r : Request) (store other : Store)
    (responded : Responded) (p : Pending) (reply : Reply ℕ)
    → respond host secret r store ≡ some responded
    → responded.pending ≡ some p
    → contains other p.dispatch_key ≡ true
    → (again : Responded) × (respond host secret r
          (release p.dispatch_key (is_forwarded reply) other)
        ≡ some again)
      × (again.pending ≡ (if is_forwarded reply then none else some p))
respond-release host secret r store other responded p reply h waits held =
    let (x, e, same) =
      concluded-some host r store _ responded (sym (respond-examine host r secret store) ∙ h) in
    let after : Store = release p.dispatch_key (is_forwarded reply) other in
    (
      conclude host r after x,
      respond-examine host r secret after ∙ ap (concluded host r after) e,
      redelivered host r x p store after (ap (λ (y : Responded). y.pending) same ∙ waits)
          ∙ ap (λ b. if b then none else some p)
              (contains-release p.dispatch_key (is_forwarded reply) other held),
    )
