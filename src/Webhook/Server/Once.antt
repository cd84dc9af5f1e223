-- ===== src/Webhook/Server/Once.antt =====
-- No delivery reaches the agent twice, and none waits beside one that did.
use openclaw_control_plane.Common.{
  ℕ, suc, ◌+◌, ◌≤◌, String, Bool, true, false, Option, List, [], ◌∷◌, ◌++◌, map, ◌≡◌, refl, sym, ap,
  ◌∙◌, subst, arith, ◌==◌, string_eq, contains, if◌then◌else◌, inl, inr, ◌⊎◌,
}
use openclaw_control_plane.Webhook.Host.{Host}
use openclaw_control_plane.Webhook.Forward.{is_forwarded}
use openclaw_control_plane.Webhook.Handler.{Store, delete_key, Pending, Responded, release}
use openclaw_control_plane.Webhook.Handler.Redelivery.{Kept, Added, respond_fate}
use openclaw_control_plane.Webhook.Server.{
  Server, as_list, reach, Step, answer, settle, Reach, here, next,
}

unfoldable pub count : String → List String → ℕ
count k [] = 0
count k (j ∷ js) = if j == k then suc (count k js) else count k js

abbrev pub keys : List Pending → List String
keys = map (λ p. p.dispatch_key)

-- How often a key waits or has reached the agent
forwards : String → Server → ℕ
unfolding count
forwards k s = count k (keys s.waiting) + count k s.reached

held : Store → String → ℕ
held store k = if contains store k then 1 else 0

-- The store holds just the keys that wait or have reached the agent, and each of these once.
abbrev IsExact : Server → Type 0
IsExact s = (k : String) → forwards k s ≡ held s.store k

count-middle :
    (k : String) (before : List Pending) (p : Pending) (after : List Pending)
    → count k (keys (before ++ p ∷ after))
      ≡ count k (keys (before ++ after)) + (if p.dispatch_key == k then 1 else 0)
unfolding count
count-middle k [] p after = ground arith
count-middle k (q ∷ before) p after = ground (arith, count-middle k before p after)

contains-delete :
    (key k : String) (store : Store)
    → contains (delete_key key store) k ≡ (if key == k then false else contains store k)
unfolding delete_key
contains-delete key k [] = ground arith
contains-delete key k (j ∷ store) = ground (arith, contains-delete key k store)

held-release :
    (key k : String) (reached : Bool) (store : Store)
    → held (release key reached store) k
      ≡ (if reached then held store k else if key == k then 0 else held store k)
unfolding held release
held-release key k true store = refl
held-release key k false store = ground (arith, contains-delete key k store)

count-reach :
    (key k : String) (reached : Bool) (js : List String)
    → count k (reach reached key js)
      ≡ count k js + (if reached then (if key == k then 1 else 0) else 0)
unfolding count
count-reach key k true js = ground arith
count-reach key k false js = ground arith

answer-Kept :
    (s t : Server) (responded : Responded) (key : Option String)
    → IsExact s
    → Kept s.store key responded
    → t ≡ record {
      store = responded.store;
      waiting = as_list responded.pending ++ s.waiting;
      reached = s.reached;
    }
    → IsExact t
answer-Kept s t responded key inv (same, none_waits, old) e =
    let unchanged : t ≡ s =
      e
      ∙ ap
          (λ (o : Option Pending). record {
            store = responded.store;
            waiting = as_list o ++ s.waiting;
            reached = s.reached;
          })
          none_waits
      ∙ ap (λ (st : Store). record { store = st; waiting = s.waiting; reached = s.reached }) same in
    subst IsExact (sym unchanged) inv

exact_add :
    (p : Pending) (k : String) (s : Server)
    → forwards k s ≡ held s.store k
    → contains s.store p.dispatch_key ≡ false
    → forwards k (record s { store = p.dispatch_key ∷ s.store; waiting = p ∷ s.waiting })
      ≡ held (p.dispatch_key ∷ s.store) k
unfolding forwards held
exact_add p k s inv new = ground arith

exact_settle :
    (before : List Pending) (p : Pending) (after : List Pending) (reached : Bool) (k : String)
    (s : Server)
    → forwards k s ≡ held s.store k
    → s.waiting ≡ before ++ p ∷ after
    → forwards k (record {
      store = release p.dispatch_key reached s.store;
      waiting = before ++ after;
      reached = reach reached p.dispatch_key s.reached;
    })
      ≡ held (release p.dispatch_key reached s.store) k
unfolding forwards held
exact_settle before p after true k s inv e = ground (
  arith,
  ap (λ (w : List Pending). count k (keys w)) e,
  count-middle k before p after,
  count-reach p.dispatch_key k true s.reached,
  held-release p.dispatch_key k true s.store,
)
exact_settle before p after false k s inv e = ground (
  arith,
  ap (λ (w : List Pending). count k (keys w)) e,
  count-middle k before p after,
  held-release p.dispatch_key k false s.store,
)

Step-IsExact :
    {host : Host} {secret : Option String} {s t : Server}
    → Step host secret s t
    → IsExact s
    → IsExact t
Step-IsExact {host} {secret} {s} {t} (answer r responded h e) inv =
    let (key, o, fate) = respond_fate host r secret s.store responded h in by_fate key o fate
  where
    by_fate :
        (key : Option String) (o : Option Pending)
        → Kept s.store key responded ⊎ Added s.store key o responded
        → IsExact t
    by_fate key o (inl kept) = answer-Kept s t responded key inv kept e
    by_fate key o (inr (p, k, off, waits, same, new)) =
        let added : t ≡ record s { store = p.dispatch_key ∷ s.store; waiting = p ∷ s.waiting } =
          e
          ∙ ap
              (λ (o : Option Pending). record {
                store = responded.store;
                waiting = as_list o ++ s.waiting;
                reached = s.reached;
              })
              waits
          ∙ ap (λ (st : Store). record { store = st; waiting = p ∷ s.waiting; reached = s.reached })
              same in
        subst IsExact (sym added) (λ k. exact_add p k s (inv k) new)
Step-IsExact {s} (settle before p after reply split e) inv =
    subst IsExact (sym e) (λ k. exact_settle before p after (is_forwarded reply) k s (inv k) split)

Reach-IsExact :
    {host : Host} {secret : Option String} {s : Server} → Reach host secret s → IsExact s
unfolding forwards held count
Reach-IsExact here = λ k. refl
Reach-IsExact (next run step) = Step-IsExact step (Reach-IsExact run)

held-le : (store : Store) (k : String) → held store k ≤ 1
unfolding held
held-le store k = ground arith

-- However requests and the ends of their forwards interleave, a key waits for the agent or has
-- reached it at most once in all, and it is in the store just then.
pub Reach-once :
    {host : Host} {secret : Option String} {s : Server}
    → Reach host secret s
    → (k : String)
    → (count k (keys s.waiting) + count k s.reached ≤ 1)
      × (count k (keys s.waiting) + count k s.reached ≡ (if contains s.store k then 1 else 0))
unfolding forwards held
Reach-once {s} run k = (omega (arith, Reach-IsExact run k, held-le s.store k), Reach-IsExact run k)
