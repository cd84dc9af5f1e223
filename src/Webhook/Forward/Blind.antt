-- ===== src/Webhook/Forward/Blind.antt =====
-- The text of a comment does not reach the agent: it is in no part of the request, nor of the key.
use openclaw_control_plane.Common.{
  String, false, Option, none, some, List, [], ◌∷◌, ◌≡◌, ◌≢◌, refl, sym, ap, ◌∙◌, ◌==◌, string_eq,
  arith,
}
use openclaw_control_plane.Json.{Json, str, obj, Fields, end, field, get, put}
use openclaw_control_plane.Json.Laws.{get-put_self, get-put_ne}
use openclaw_control_plane.Webhook.Host.{Host}
use openclaw_control_plane.Webhook.Delivery.{
  dig, compute_dedup_key, resource_number_for, actor_login_for,
}
use openclaw_control_plane.Webhook.Forward.{
  ForwardOptions, agent_hook_request, hook_body, trigger, remove, set_delivery_id, with_delivery_id,
}

-- Two payloads that agree wherever the code reads them, but for the text of a comment.
record Agrees (p q : Option Json) : Type 0 where
  repo : dig ("repository" ∷ "full_name" ∷ []) p ≡ dig ("repository" ∷ "full_name" ∷ []) q
  nested_number : dig ("pull_request" ∷ "number" ∷ []) p ≡ dig ("pull_request" ∷ "number" ∷ []) q
  number : dig ("number" ∷ []) p ≡ dig ("number" ∷ []) q
  issue_number : dig ("issue" ∷ "number" ∷ []) p ≡ dig ("issue" ∷ "number" ∷ []) q
  sha : dig ("pull_request" ∷ "head" ∷ "sha" ∷ []) p ≡ dig ("pull_request" ∷ "head" ∷ "sha" ∷ []) q
  sender : dig ("sender" ∷ "login" ∷ []) p ≡ dig ("sender" ∷ "login" ∷ []) q
  author : dig ("comment" ∷ "user" ∷ "login" ∷ []) p ≡ dig ("comment" ∷ "user" ∷ "login" ∷ []) q
  comment_id : dig ("comment" ∷ "id" ∷ []) p ≡ dig ("comment" ∷ "id" ∷ []) q
  delivery : dig ("deliveryId" ∷ []) p ≡ dig ("deliveryId" ∷ []) q

hook_body-Agrees :
    (key event : String) (p q : Option Json)
    → Agrees p q
    → hook_body key event p ≡ hook_body key event q
unfolding hook_body trigger resource_number_for actor_login_for
hook_body-Agrees key event p q a =
    rw (a.repo, a.nested_number, a.number, a.issue_number, a.sender, a.author, a.delivery)

compute_dedup_key-Agrees :
    (event : String) (p q : Option Json)
    → Agrees p q
    → compute_dedup_key event p ≡ compute_dedup_key event q
unfolding compute_dedup_key
compute_dedup_key-Agrees event p q a =
    rw (a.repo, a.nested_number, a.number, a.issue_number, a.sha, a.comment_id)

get-remove_ne : (j k : String) (fs : Fields) → j ≢ k → get j (remove k fs) ≡ get j fs
unfolding get remove
get-remove_ne j k end h = refl
get-remove_ne j k (field i v fs) h = ground (arith, get-remove_ne j k fs h)

get-remove_self : (k : String) (fs : Fields) → get k (remove k fs) ≡ none
unfolding get remove
get-remove_self k end = refl
get-remove_self k (field i v fs) = ground (arith, get-remove_self k fs)

get-set_delivery_id :
    (id : Option String) (key : String) (fs : Fields)
    → key ≢ "deliveryId"
    → get key (set_delivery_id id fs) ≡ get key fs
unfolding set_delivery_id
get-set_delivery_id none key fs h = get-remove_ne key "deliveryId" fs h
get-set_delivery_id (some id) key fs h = get-put_ne key "deliveryId" (str id) fs h

get-set_delivery_id_self :
    (id : Option String) (fs gs : Fields)
    → get "deliveryId" (set_delivery_id id fs) ≡ get "deliveryId" (set_delivery_id id gs)
unfolding set_delivery_id
get-set_delivery_id_self none fs gs =
    get-remove_self "deliveryId" fs ∙ sym (get-remove_self "deliveryId" gs)
get-set_delivery_id_self (some id) fs gs =
    get-put_self "deliveryId" (str id) fs ∙ sym (get-put_self "deliveryId" (str id) gs)

apart : {s t : String} → (s == t) ≡ false → s ≢ t
apart {s} {t} h = ground arith

with_delivery_id-Agrees :
    (id : Option String) (fs gs : Fields)
    → Agrees (some (obj fs)) (some (obj gs))
    → Agrees (with_delivery_id id (some (obj fs))) (with_delivery_id id (some (obj gs)))
unfolding with_delivery_id string_eq
with_delivery_id-Agrees id fs gs a = record {
  repo = through "repository" ("full_name" ∷ []) refl a.repo;
  nested_number = through "pull_request" ("number" ∷ []) refl a.nested_number;
  number = through "number" [] refl a.number;
  issue_number = through "issue" ("number" ∷ []) refl a.issue_number;
  sha = through "pull_request" ("head" ∷ "sha" ∷ []) refl a.sha;
  sender = through "sender" ("login" ∷ []) refl a.sender;
  author = through "comment" ("user" ∷ "login" ∷ []) refl a.author;
  comment_id = through "comment" ("id" ∷ []) refl a.comment_id;
  delivery = get-set_delivery_id_self id fs gs;
}
  where
    through :
        (key : String) (rest : List String)
        → (key == "deliveryId") ≡ false
        → dig (key ∷ rest) (some (obj fs)) ≡ dig (key ∷ rest) (some (obj gs))
        → dig (key ∷ rest) (some (obj (set_delivery_id id fs)))
          ≡ dig (key ∷ rest) (some (obj (set_delivery_id id gs)))
    through key rest h e =
        ap (dig rest) (get-set_delivery_id id key fs (apart h))
        ∙ e
        ∙ sym (ap (dig rest) (get-set_delivery_id id key gs (apart h)))

-- A payload whose comment has another text
abbrev pub with_comment_body : Json → Fields → Fields → Fields
with_comment_body v c fs = put "comment" (obj (put "body" v c)) fs

comment_body-Agrees :
    (v : Json) (c fs : Fields)
    → get "comment" fs ≡ some (obj c)
    → Agrees (some (obj (with_comment_body v c fs))) (some (obj fs))
unfolding string_eq
comment_body-Agrees v c fs h = record {
  repo = beside "repository" ("full_name" ∷ []) refl;
  nested_number = beside "pull_request" ("number" ∷ []) refl;
  number = beside "number" [] refl;
  issue_number = beside "issue" ("number" ∷ []) refl;
  sha = beside "pull_request" ("head" ∷ "sha" ∷ []) refl;
  sender = beside "sender" ("login" ∷ []) refl;
  author = within "user" ("login" ∷ []) refl;
  comment_id = within "id" [] refl;
  delivery = beside "deliveryId" [] refl;
}
  where
    beside :
        (key : String) (rest : List String)
        → (key == "comment") ≡ false
        → dig (key ∷ rest) (some (obj (with_comment_body v c fs)))
          ≡ dig (key ∷ rest) (some (obj fs))
    beside key rest other =
        ap (dig rest) (get-put_ne key "comment" (obj (put "body" v c)) fs (apart other))

    within :
        (key : String) (rest : List String)
        → (key == "body") ≡ false
        → dig ("comment" ∷ key ∷ rest) (some (obj (with_comment_body v c fs)))
          ≡ dig ("comment" ∷ key ∷ rest) (some (obj fs))
    within key rest other =
        ap (dig (key ∷ rest)) (get-put_self "comment" (obj (put "body" v c)) fs)
        ∙ ap (dig rest) (get-put_ne key "body" v c (apart other))
        ∙ sym (ap (dig (key ∷ rest)) h)

-- Where a payload has a comment, another text of the comment changes neither the request that is
-- sent to the agent nor the key of the delivery.
pub agent_hook_request-comment_body :
    (host : Host) (options : ForwardOptions) (dispatch_key event : String) (id : Option String)
    (v : Json) (c fs : Fields)
    → get "comment" fs ≡ some (obj c)
    → (agent_hook_request host options dispatch_key event
          (with_delivery_id id (some (obj (with_comment_body v c fs))))
        ≡ agent_hook_request host options dispatch_key event (with_delivery_id id (some (obj fs))))
      × (compute_dedup_key event (some (obj (with_comment_body v c fs)))
          ≡ compute_dedup_key event (some (obj fs)))
unfolding agent_hook_request
agent_hook_request-comment_body host options dispatch_key event id v c fs h =
    let a = comment_body-Agrees v c fs h in
    (
      rw (
          hook_body-Agrees dispatch_key event _ _
            (with_delivery_id-Agrees id (with_comment_body v c fs) fs a)),
      compute_dedup_key-Agrees event _ _ a,
    )
