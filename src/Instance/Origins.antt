-- ===== src/Instance/Origins.antt =====
-- What `patchAllowedOrigins` writes, and when.
use openclaw_control_plane.Common.{
  String, true, false, List, [], ◌∷◌, ◌++◌, ◌≡◌, refl, sym, ◌∙◌, ap, subst, ◌≢◌, string_eq, arith,
}
use openclaw_control_plane.Json.{
  Json, null, bool, num, str, arr, obj, Fields, end, of_items, get, put, get_of,
}
use openclaw_control_plane.Json.Laws.{get-put_self, get-put_ne, items-of_items}
use openclaw_control_plane.Instance.{
  fields_of, elements_of, includes, gateway_of, is_baseline, already_present, patch, with_origins,
  plan_gateway, plan, read_allowed_origins,
}

-- The objects on the path to the origins, in a document.
abbrev pub gateway_in : Json → Fields
gateway_in doc = fields_of (get_of "gateway" doc)

abbrev pub control_ui_in : Json → Fields
control_ui_in doc = fields_of (get "controlUi" (gateway_in doc))

-- `new` is `old` with one more origin, and nothing else changed.
pub record IsPatched (origin : String) (old new : Json) : Type 0 where
  pub baseline : is_baseline (get "mode" (gateway_in old)) ≡ true
  pub absent : includes (read_allowed_origins old) origin ≡ false
  pub origins : read_allowed_origins new ≡ read_allowed_origins old ++ (str origin ∷ [])
  pub top : (key : String) → key ≢ "gateway" → get_of key new ≡ get_of key old
  pub gateway :
      (key : String) → key ≢ "controlUi" → get key (gateway_in new) ≡ get key (gateway_in old)
  pub control_ui :
      (key : String)
      → key ≢ "allowedOrigins"
      → get key (control_ui_in new) ≡ get key (control_ui_in old)

includes-append :
    (vs : List Json) (origin : String) → includes (vs ++ (str origin ∷ [])) origin ≡ true
unfolding includes
includes-append [] origin = ground arith
includes-append (v ∷ vs) origin = ground (arith, includes-append vs origin)

-- The gateway that a written document has.
with_origins-gateway :
    (fs g c : Fields) (vs : List Json)
    → gateway_in (with_origins (obj fs) g c vs)
      ≡ put "controlUi" (obj (put "allowedOrigins" (arr (of_items vs)) c)) g
unfolding with_origins fields_of
with_origins-gateway fs g c vs = ap fields_of (get-put_self "gateway" _ fs)

with_origins-control_ui :
    (fs g c : Fields) (vs : List Json)
    → control_ui_in (with_origins (obj fs) g c vs) ≡ put "allowedOrigins" (arr (of_items vs)) c
unfolding fields_of
with_origins-control_ui fs g c vs =
    ap (λ x. fields_of (get "controlUi" x)) (with_origins-gateway fs g c vs)
    ∙ ap fields_of (get-put_self "controlUi" _ g)

with_origins-origins :
    (fs g c : Fields) (vs : List Json) → read_allowed_origins (with_origins (obj fs) g c vs) ≡ vs
unfolding read_allowed_origins elements_of
with_origins-origins fs g c vs =
    ap (λ x. elements_of (get "allowedOrigins" x)) (with_origins-control_ui fs g c vs)
    ∙ ap elements_of (get-put_self "allowedOrigins" _ c)
    ∙ items-of_items vs

with_origins-top :
    (fs g c : Fields) (vs : List Json) (key : String)
    → key ≢ "gateway"
    → get_of key (with_origins (obj fs) g c vs) ≡ get key fs
unfolding with_origins
with_origins-top fs g c vs key h = get-put_ne key "gateway" _ fs h

plan_gateway-patch :
    (origin : String) (doc new : Json) (g : Fields)
    → plan_gateway origin doc g ≡ patch new
    → let c = fields_of (get "controlUi" g) in
      let vs = elements_of (get "allowedOrigins" c) in
      (includes vs origin ≡ false)
      × (is_baseline (get "mode" g) ≡ true)
      × (new ≡ with_origins doc g c (vs ++ (str origin ∷ [])))
unfolding plan_gateway
plan_gateway-patch origin doc new g h = ground arith

-- An array has no gateway, so no mode.
no_mode : is_baseline (get "mode" end) ≡ false
unfolding is_baseline get
no_mode = refl

written :
    (origin : String) (fs : Fields)
    → includes (read_allowed_origins (obj fs)) origin ≡ false
    → is_baseline (get "mode" (gateway_in (obj fs))) ≡ true
    → IsPatched origin (obj fs) (
        with_origins
          (obj fs)
          (gateway_in (obj fs))
          (control_ui_in (obj fs))
          (read_allowed_origins (obj fs) ++ (str origin ∷ [])))
written origin fs absent baseline = record {
  baseline = baseline;
  absent = absent;
  origins = with_origins-origins fs _ _ _;
  top = with_origins-top fs _ _ _;
  gateway = λ key other.
      ap (get key) (with_origins-gateway fs _ _ _) ∙ get-put_ne key "controlUi" _ _ other;
  control_ui = λ key other.
      ap (get key) (with_origins-control_ui fs _ _ _) ∙ get-put_ne key "allowedOrigins" _ _ other;
}

patched_lem :
    (origin : String) (old new : Json) → plan origin old ≡ patch new → IsPatched origin old new
unfolding plan gateway_of read_allowed_origins
patched_lem origin (obj fs) new h =
    let (absent, baseline, e) = plan_gateway-patch origin (obj fs) new _ h in
    subst (IsPatched origin (obj fs)) (sym e) (written origin fs absent baseline)
patched_lem origin (arr vs) new h =
    let (absent, baseline, e) = plan_gateway-patch origin (arr vs) new end h in
    let never : true ≡ false = sym baseline ∙ no_mode in cc
patched_lem origin null new h = cc
patched_lem origin (bool b) new h = cc
patched_lem origin (num n) new h = cc
patched_lem origin (str s) new h = cc

plan_present :
    (origin : String) (fs : Fields)
    → includes (read_allowed_origins (obj fs)) origin ≡ true
    → plan origin (obj fs) ≡ already_present
unfolding plan gateway_of plan_gateway read_allowed_origins
plan_present origin fs h = rw h

planned_again :
    (origin : String) (old new : Json)
    → plan origin old ≡ patch new
    → plan origin new ≡ already_present
unfolding plan gateway_of read_allowed_origins with_origins
planned_again origin (obj fs) new h =
    let (absent, baseline, e) = plan_gateway-patch origin (obj fs) new _ h in
    ap (plan origin) e
    ∙ plan_present origin _
        (ap (λ vs. includes vs origin) (with_origins-origins fs _ _ _) ∙ includes-append _ origin)
planned_again origin (arr vs) new h =
    let (absent, baseline, e) = plan_gateway-patch origin (arr vs) new end h in
    let never : true ≡ false = sym baseline ∙ no_mode in cc
planned_again origin null new h = cc
planned_again origin (bool b) new h = cc
planned_again origin (num n) new h = cc
planned_again origin (str s) new h = cc

-- A document is written only if the gateway has a mode and the origin is missing; the written one
-- has the origin behind the others, and all else as it was; and it is not written again.
pub plan-IsPatched :
    (origin : String) (old new : Json)
    → plan origin old ≡ patch new
    → IsPatched origin old new × (plan origin new ≡ already_present)
plan-IsPatched origin old new h = (patched_lem origin old new h, planned_again origin old new h)
