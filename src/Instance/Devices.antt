-- ===== src/Instance/Devices.antt =====
-- Which pairing request `approveOwnDevicePairing` approves.
use openclaw_control_plane.Common.{
  ◌<>◌, ◌≢◌, arith, string_eq, ℕ, String, Option, none, some, List, [], ◌∷◌, ◌≡◌, refl, ◌⊎◌, inl,
  inr, ap, subst, sym, leb, length,
}
use openclaw_control_plane.Json.{Json, truthy?, obj, end, field, str}
use openclaw_control_plane.Effects.{pure, done, threw}
use openclaw_control_plane.Effects.Errors.{Error}
use openclaw_control_plane.Effects.Platform.{Env, Trace, Event, fetched, SetupAuth}
use openclaw_control_plane.Effects.Triple.{
  Triple, Triple-pure, Triple-throw, Triple-if, Triple-bind, Triple-fetch, Triple-traced,
  Triple-done, Triple-threw, Triple-given, Triple-error,
}
use openclaw_control_plane.Instance.{
  get_request, post_request, get_pending_devices, approve_device, Choice, nothing, ambiguous,
  empty_id, sole, choose, follow_choice, approve_own_device_pairing, ApproveOwnDeviceResult,
  approved, no_pending, not_ready,
}
use openclaw_control_plane.Instance.Answers.{Keeps-json_of, Keeps-member}

module _ (env : Env) (base : String) (auth : SetupAuth) where
  abbrev pub asked : Event
  asked = fetched (get_request env (base <> "/setup/api/devices/pending") auth)

  abbrev pub sent_approval : String → Event
  sent_approval id = fetched (
      post_request env (base <> "/setup/api/devices/approve") auth
        (obj (field "requestId" (str id) end)))

  -- The list of pending requests that is served, `none` where the instance is not ready.
  abbrev pub Lists : Trace → Option (List Json) → Type 0
  Lists t pending = get_pending_devices env base auth t ≡ done pending (asked ∷ t)

  pub Triple-get_pending_devices :
      {P Q : Trace → Type 0}
      → ((t : Trace) → P t → Q (asked ∷ t))
      → Triple P (get_pending_devices env base auth) (λ _. Q) (λ _. Q)
  unfolding get_pending_devices
  Triple-get_pending_devices {Q} enter =
      Triple-bind {Q = λ _. Q} (Triple-fetch env _ (λ r t e h. enter t h) (λ s t h. enter t h))
        (λ r.
          Triple-if (leb 500 r.status) (λ _. Triple-pure _ (λ t h. h))
            (λ _.
              Triple-bind (Keeps-json_of env _ _ r)
                (λ body. Triple-bind (Keeps-member env _ body) (λ flag. Triple-pure _ (λ t h. h)))))

  pub Triple-approve_device :
      {P Q : Trace → Type 0} (id : String)
      → ((t : Trace) → P t → Q (sent_approval id ∷ t))
      → Triple P (approve_device env base auth id) (λ _. Q) (λ _. Q)
  unfolding approve_device
  Triple-approve_device {Q} id enter =
      Triple-bind {Q = λ _. Q} (Triple-fetch env _ (λ r t e h. enter t h) (λ s t h. enter t h))
        (λ r. Triple-bind (Keeps-json_of env _ _ r) (λ body.
          Triple-bind (Keeps-member env _ body) (λ flag.
            Triple-if (truthy? flag) (λ _. Triple-pure tt (λ t h. h))
              (λ _. Triple-throw _ (λ t h. h)))))

  Triple-listed :
      (t : Trace)
      → Triple
          (λ u. u ≡ t)
          (get_pending_devices env base auth)
          (λ pending u. (u ≡ asked ∷ t) × Lists t pending)
          (λ _ u. u ≡ asked ∷ t)
  Triple-listed t =
      Triple-traced (get_pending_devices env base auth) t (asked ∷ t)
        (Triple-get_pending_devices (λ u h. ap (λ x. asked ∷ x) h))

  -- How an approval that returns left the instance.
  pub data Approval (t : Trace) : ApproveOwnDeviceResult → Trace → Type 0 where
    was_approved :
        (id : String)
        → Lists t (some (str id ∷ []))
        → id ≢ ""
        → Approval t (approved id) (sent_approval id ∷ asked ∷ t)
    was_empty : Lists t (some []) → Approval t no_pending (asked ∷ t)
    was_unready : Lists t none → Approval t not_ready (asked ∷ t)

  -- An approval was sent, of the only request there was.
  pub record IsSoleApproval (t u : Trace) : Type 0 where
    pub id : String
    pub lists : Lists t (some (str id ∷ []))
    pub sent : u ≡ sent_approval id ∷ asked ∷ t

  abbrev Halted : Trace → Error → Trace → Type 0
  Halted t e u = (u ≡ asked ∷ t) ⊎ IsSoleApproval t u

  choose-sole :
      (ids : List Json) (id : String) → choose ids ≡ sole id → (ids ≡ str id ∷ []) × (id ≢ "")
  unfolding choose
  choose-sole [] id h = cc
  choose-sole (str s ∷ []) id h = ground arith
  choose-sole (v ∷ []) id h = cc
  choose-sole (v ∷ w ∷ ids) id h = cc

  choose-nothing : (ids : List Json) → choose ids ≡ nothing → ids ≡ []
  unfolding choose
  choose-nothing [] h = refl
  choose-nothing (str s ∷ []) h = ground arith
  choose-nothing (v ∷ []) h = cc
  choose-nothing (v ∷ w ∷ ids) h = cc

  Triple-follow_choice :
      (t : Trace) (ids : List Json) (found : ℕ) (c : Choice)
      → Lists t (some ids)
      → choose ids ≡ c
      → Triple (λ u. u ≡ asked ∷ t) (follow_choice env base auth found c) (Approval t) (Halted t)
  unfolding follow_choice
  Triple-follow_choice t ids found nothing w e = Triple-pure _ (λ u h.
      subst (Approval t _) (sym h)
        (was_empty (subst (λ x. Lists t (some x)) (choose-nothing ids e) w)))
  Triple-follow_choice t ids found ambiguous w e = Triple-throw _ (λ u h. inl h)
  Triple-follow_choice t ids found empty_id w e = Triple-throw _ (λ u h. inl h)
  Triple-follow_choice t ids found (sole id) w e =
      let (only, named) = choose-sole ids id e in
      let w' : Lists t (some (str id ∷ [])) = subst (λ x. Lists t (some x)) only w in
      Triple-bind {Q = λ _ u. u ≡ sent_approval id ∷ asked ∷ t}
        (Triple-error (λ x u h. inr (record { id = id; lists = w'; sent = h }))
          (Triple-approve_device id (λ u h. ap (λ x. sent_approval id ∷ x) h)))
        (λ _. Triple-pure _ (λ u h. subst (Approval t _) (sym h) (was_approved id w' named)))

  Triple-follow_pending :
      (t : Trace) (pending : Option (List Json))
      → Lists t pending
      → Triple
          (λ u. u ≡ asked ∷ t)
          (elim pending [
            | none ↦ pure not_ready
            | some ids ↦ follow_choice env base auth (length ids) (choose ids)
          ])
          (Approval t)
          (Halted t)
  Triple-follow_pending t none w =
      Triple-pure _ (λ u h. subst (Approval t _) (sym h) (was_unready w))
  Triple-follow_pending t (some ids) w = Triple-follow_choice t ids _ _ w refl

  Triple-approve :
      (t : Trace)
      → Triple (λ u. u ≡ t) (approve_own_device_pairing env base auth) (Approval t) (Halted t)
  unfolding approve_own_device_pairing
  Triple-approve t =
      Triple-bind (Triple-error (λ e u h. inl h) (Triple-listed t))
        (λ pending. Triple-given λ w. Triple-follow_pending t pending w)

-- An approval that returns has asked for the pending requests once. Where exactly one was pending,
-- with an id, that one was approved by one request; where none was, or the instance was not ready,
-- nothing more was sent.
pub approve_own_device_pairing-Approval :
    (env : Env) (base : String) (auth : SetupAuth) (t u : Trace) (r : ApproveOwnDeviceResult)
    → approve_own_device_pairing env base auth t ≡ done r u
    → Approval env base auth t r u
approve_own_device_pairing-Approval env base auth t u r e =
    Triple-done (Triple-approve env base auth t) refl e

-- An approval that throws has only asked for the pending requests, or it sent an approval of the
-- only request there was. With several pending nothing is approved.
pub approve_own_device_pairing-IsSoleApproval :
    (env : Env) (base : String) (auth : SetupAuth) (t u : Trace) (e : Error)
    → approve_own_device_pairing env base auth t ≡ threw e u
    → (u ≡ asked env base auth ∷ t) ⊎ IsSoleApproval env base auth t u
approve_own_device_pairing-IsSoleApproval env base auth t u e h =
    Triple-threw (Triple-approve env base auth t) refl h
