-- ===== src/Webhook/Server.antt =====
-- The webhook server: requests and the ends of their forwards, interleaved in any order. The handler
-- waits only for the body, before it looks at the store, and for the agent.
pub mod Once
use openclaw_control_plane.Common.{
  ℕ, String, Bool, true, false, Option, none, some, List, [], ◌∷◌, ◌++◌, ◌≡◌,
}
use openclaw_control_plane.Effects.Platform.{Reply}
use openclaw_control_plane.Webhook.Host.{Host}
use openclaw_control_plane.Webhook.Forward.{is_forwarded}
use openclaw_control_plane.Webhook.Handler.{Store, Request, Pending, Responded, respond, release}

-- `waiting` holds the deliveries whose forward has not ended, `reached` the keys of those that
-- reached the agent.
pub record Server : Type 0 where
  pub store : Store
  pub waiting : List Pending
  pub reached : List String

abbrev pub as_list : Option Pending → List Pending
as_list none = []
as_list (some p) = p ∷ []

abbrev pub reach : Bool → String → List String → List String
reach true key reached = key ∷ reached
reach false key reached = reached

pub data Step (host : Host) (secret : Option String) (s t : Server) : Type 0 where
  answer :
      (r : Request) (responded : Responded)
      → respond host secret r s.store ≡ some responded
      → t ≡ record {
        store = responded.store;
        waiting = as_list responded.pending ++ s.waiting;
        reached = s.reached;
      }
      → Step host secret s t
  settle :
      (before : List Pending) (p : Pending) (after : List Pending) (reply : Reply ℕ)
      → s.waiting ≡ before ++ p ∷ after
      → t ≡ record {
        store = release p.dispatch_key (is_forwarded reply) s.store;
        waiting = before ++ after;
        reached = reach (is_forwarded reply) p.dispatch_key s.reached;
      }
      → Step host secret s t

-- The process starts with an empty store.
abbrev pub start : Server
start = record { store = []; waiting = []; reached = [] }

pub data Reach (host : Host) (secret : Option String) : Server → Type 0 where
  here : Reach host secret start
  next : {s t : Server} → Reach host secret s → Step host secret s t → Reach host secret t
