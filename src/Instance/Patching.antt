-- ===== src/Instance/Patching.antt =====
-- What `patchAllowedOrigins` sends, against the trace.
use openclaw_control_plane.Common.{
  String, true, false, ◌∷◌, ◌≡◌, refl, ◌⊎◌, inl, inr, ap, subst, sym,
}
use openclaw_control_plane.Common.Text.{is_blank}
use openclaw_control_plane.Json.{Json, truthy?, obj, end, field, str}
use openclaw_control_plane.Effects.{done, threw}
use openclaw_control_plane.Effects.Errors.{Error}
use openclaw_control_plane.Effects.Platform.{Env, Trace, Event, fetched, SetupAuth, ok}
use openclaw_control_plane.Effects.Triple.{
  Triple, Triple-pure, Triple-throw, Triple-if, Triple-require, Triple-await, Triple-bind,
  Triple-try, Triple-fetch, Triple-traced, Triple-done, Triple-threw, Triple-given, Triple-error,
}
use openclaw_control_plane.Instance.{
  config_url, get_request, post_request, get_config_raw, post_config_raw, parse_document,
  verify_origins, follow_plan, origin_of, patch_allowed_origins, PatchAllowedOriginsStatus, patched,
  Plan, already_present, refused_missing_baseline, malformed, patch, plan, includes,
  read_allowed_origins,
}
use openclaw_control_plane.Instance.Answers.{Keeps-json_of, Keeps-member}

-- A text and the document it is taken for: a blank one is `{}`.
pub data Parses (env : Env) (content : String) : Json → Type 0 where
  blank : is_blank content ≡ true → Parses env content (obj end)
  parsed :
      {doc : Json}
      → is_blank content ≡ false
      → env.parse_json content ≡ ok doc
      → Parses env content doc

module _ (env : Env) (base : String) (auth : SetupAuth) where
  abbrev pub got : Event
  got = fetched (get_request env (config_url env base) auth)

  abbrev pub posted : Json → Event
  posted doc = fetched (
      post_request env (config_url env base) auth
        (obj (field "content" (str (env.stringify doc)) end)))

  -- The instance serves the document, at this trace.
  pub record Serves (t : Trace) (doc : Json) : Type 0 where
    pub content : String
    pub served : get_config_raw env base auth t ≡ done content (got ∷ t)
    pub document : Parses env content doc

  pub Triple-get_config_raw :
      {P Q : Trace → Type 0}
      → ((t : Trace) → P t → Q (got ∷ t))
      → Triple P (get_config_raw env base auth) (λ _. Q) (λ _. Q)
  unfolding get_config_raw
  Triple-get_config_raw {Q} enter =
      Triple-bind {Q = λ _. Q} (Triple-fetch env _ (λ r t e h. enter t h) (λ s t h. enter t h))
        (λ r. Triple-bind (Keeps-json_of env _ _ r) (λ body.
          Triple-bind (Keeps-member env _ body) (λ flag.
            Triple-bind (Keeps-member env _ body) (λ content.
              Triple-if (truthy? flag) (λ _. Triple-require _ _ (λ a t e h. h) (λ t e h. h))
                (λ _. Triple-throw _ (λ t h. h))))))

  pub Triple-post_config_raw :
      {P Q : Trace → Type 0} (doc : Json)
      → ((t : Trace) → P t → Q (posted doc ∷ t))
      → Triple P (post_config_raw env base auth doc) (λ _. Q) (λ _. Q)
  unfolding post_config_raw
  Triple-post_config_raw {Q} doc enter =
      Triple-bind {Q = λ _. Q} (Triple-fetch env _ (λ r t e h. enter t h) (λ s t h. enter t h))
        (λ r. Triple-bind (Keeps-json_of env _ _ r) (λ body.
          Triple-bind (Keeps-member env _ body) (λ flag.
            Triple-if (truthy? flag) (λ _. Triple-pure tt (λ t h. h))
              (λ _. Triple-throw _ (λ t h. h)))))

  pub Triple-parse_document :
      {P : Trace → Type 0} (content : String)
      → Triple P (parse_document env content) (λ doc t. P t × Parses env content doc) (λ _. P)
  unfolding parse_document
  Triple-parse_document content =
      Triple-if (is_blank content) (λ e. Triple-pure _ (λ t h. (h, blank e)))
        (λ e. Triple-await _ (λ doc t w h. (h, parsed e w)) (λ s t h. h))

  -- The content that is served, as the run that read it.
  Triple-served :
      (t : Trace)
      → Triple
          (λ u. u ≡ t)
          (get_config_raw env base auth)
          (λ content u. (u ≡ got ∷ t) × (get_config_raw env base auth t ≡ done content (got ∷ t)))
          (λ _ u. u ≡ got ∷ t)
  Triple-served t =
      Triple-traced (get_config_raw env base auth) t (got ∷ t)
        (Triple-get_config_raw (λ u h. ap (λ x. got ∷ x) h))

  -- The document that is served at a trace has the origin.
  pub record HasOrigin (origin : String) (t : Trace) : Type 0 where
    pub now : Json
    pub serves : Serves t now
    pub included : includes (read_allowed_origins now) origin ≡ true

  Triple-verify_origins :
      (origin : String) (t : Trace)
      → Triple
          (λ u. u ≡ t)
          (verify_origins env base auth origin)
          (λ _ u. (u ≡ got ∷ t) × HasOrigin origin t)
          (λ _ u. u ≡ got ∷ t)
  unfolding verify_origins
  Triple-verify_origins origin t = Triple-bind (Triple-served t) (λ content. Triple-given λ run.
      Triple-bind
        (Triple-try {F = λ _ u. u ≡ got ∷ t} (Triple-parse_document content)
          (λ cause. Triple-throw _ (λ u h. h)))
        (λ doc. Triple-given λ p.
          Triple-if (includes (read_allowed_origins doc) origin)
            (λ e. Triple-pure tt (λ u h. (
              h,
              record {
                now = doc;
                serves = record { content = content; served = run; document = p };
                included = e;
              },
            )))
            (λ _. Triple-throw _ (λ u h. h))))

  -- The patch that the document at `t` asks for was sent, and nothing else; then perhaps read back.
  pub record IsPosted (origin : String) (t u : Trace) : Type 0 where
    pub old : Json
    pub new : Json
    pub serves : Serves t old
    pub planned : plan origin old ≡ patch new
    pub sent : (u ≡ posted new ∷ got ∷ t) ⊎ (u ≡ got ∷ posted new ∷ got ∷ t)

  -- How a repair that returns left the instance.
  pub data Repaired (origin : String) (t : Trace) : PatchAllowedOriginsStatus → Trace → Type 0 where
    was_present :
        (doc : Json)
        → Serves t doc
        → plan origin doc ≡ already_present
        → Repaired origin t already_present (got ∷ t)
    was_refused :
        (doc : Json)
        → Serves t doc
        → plan origin doc ≡ refused_missing_baseline
        → Repaired origin t refused_missing_baseline (got ∷ t)
    was_patched :
        (old new : Json)
        → Serves t old
        → plan origin old ≡ patch new
        → HasOrigin origin (posted new ∷ got ∷ t)
        → Repaired origin t patched (got ∷ posted new ∷ got ∷ t)

  abbrev Halted : String → Trace → Error → Trace → Type 0
  Halted origin t e u = (u ≡ got ∷ t) ⊎ IsPosted origin t u

  Triple-follow_plan :
      (origin : String) (t : Trace) (doc : Json) (p : Plan)
      → Serves t doc
      → plan origin doc ≡ p
      → Triple
          (λ u. u ≡ got ∷ t)
          (follow_plan env base auth origin p)
          (Repaired origin t)
          (Halted origin t)
  unfolding follow_plan
  Triple-follow_plan origin t doc already_present w e =
      Triple-pure _ (λ u h. subst (Repaired origin t _) (sym h) (was_present doc w e))
  Triple-follow_plan origin t doc refused_missing_baseline w e =
      Triple-pure _ (λ u h. subst (Repaired origin t _) (sym h) (was_refused doc w e))
  Triple-follow_plan origin t doc malformed w e = Triple-throw _ (λ u h. inl h)
  Triple-follow_plan origin t doc (patch new) w e =
      Triple-bind {Q = λ _ u. u ≡ posted new ∷ got ∷ t}
        (Triple-error (λ x u h. inr (sent (inl h)))
          (Triple-post_config_raw new (λ u h. ap (λ x. posted new ∷ x) h)))
        (λ _.
          Triple-bind (Triple-error (λ x u h. inr (sent (inr h))) (Triple-verify_origins origin _))
            (λ _. Triple-given λ has.
              Triple-pure patched
                (λ u h. subst (Repaired origin t patched) (sym h) (was_patched doc new w e has))))
    where
      sent :
          {u : Trace}
          → (u ≡ posted new ∷ got ∷ t) ⊎ (u ≡ got ∷ posted new ∷ got ∷ t)
          → IsPosted origin t u
      sent h = record { old = doc; new = new; serves = w; planned = e; sent = h }

  Triple-patch :
      (domain : String) (t : Trace)
      → Triple
          (λ u. u ≡ t)
          (patch_allowed_origins env base auth domain)
          (Repaired (origin_of env domain) t)
          (Halted (origin_of env domain) t)
  unfolding patch_allowed_origins
  Triple-patch domain t = Triple-bind (Triple-error (λ e u h. inl h) (Triple-served t)) (λ content.
      Triple-given λ run.
        Triple-bind (Triple-error (λ e u h. inl h) (Triple-parse_document content)) (λ doc.
          Triple-given λ p.
            Triple-follow_plan (origin_of env domain) t doc _
              (record { content = content; served = run; document = p }) refl))

-- A repair that returns has read the config once, and done what the document that was served asks
-- for: nothing where it has the origin or has no mode; else it sent the patched document once,
-- and has read back a document with the origin.
pub patch_allowed_origins-Repaired :
    (env : Env) (base : String) (auth : SetupAuth) (domain : String) (t u : Trace)
    (s : PatchAllowedOriginsStatus)
    → patch_allowed_origins env base auth domain t ≡ done s u
    → Repaired env base auth (origin_of env domain) t s u
patch_allowed_origins-Repaired env base auth domain t u s e =
    Triple-done (Triple-patch env base auth domain t) refl e

-- A repair that throws has only read the config once, or it sent the patched document of the
-- document that was served, once, and may have read the config again.
pub patch_allowed_origins-IsPosted :
    (env : Env) (base : String) (auth : SetupAuth) (domain : String) (t u : Trace) (e : Error)
    → patch_allowed_origins env base auth domain t ≡ threw e u
    → (u ≡ got env base auth ∷ t) ⊎ IsPosted env base auth (origin_of env domain) t u
patch_allowed_origins-IsPosted env base auth domain t u e h =
    Triple-threw (Triple-patch env base auth domain t) refl h
