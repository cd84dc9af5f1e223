-- ===== src/Client/Footprint.antt =====
-- What a run of an update leaves in the trace, by how it ends.
use openclaw_control_plane.Common.{ℕ, String, Option, none, some, ◌≡◌, refl, ◌∷◌, true}
use openclaw_control_plane.Effects.Errors.{Error}
use openclaw_control_plane.Effects.Platform.{Env, Trace, command, Event, ok}
use openclaw_control_plane.Effects.{◌>>◌}
use openclaw_control_plane.Effects.Reads.{
  IsRead, IsStable, Standing, unchanged, uncertain, unverified, standing, Extends, Extends-trans,
  same, more,
}
use openclaw_control_plane.Effects.Triple.{
  Triple, Triple-throw, Triple-bind, Triple-try, Triple-error,
}
use openclaw_control_plane.Railway.{variable_set_args}
use openclaw_control_plane.Railway.Calls.{Triple-write_railway_variable}
use openclaw_control_plane.Client.{write_or_uncertain, redeploy_and_verify, redeploy_args}
use openclaw_control_plane.Client.Phases.{Triple-redeploy_and_verify, ReadBack}

-- The write of `value` to a variable, and the redeploy, of one service.
abbrev pub write_event : (name value service : String) → Event
write_event name value service = command (variable_set_args name service true) (some value)

abbrev pub redeploy_event : String → Event
redeploy_event service = command (redeploy_args service) none

-- The CLI accepted the write of `value` at a trace.
pub record Accepted (env : Env) (name value service : String) (t : Trace) : Type 0 where
  pub stdout : String
  pub taken : env.run t (variable_set_args name service true) (some value) ≡ ok stdout

-- The traces behind a redeploy.
pub record IsRedeployed (env : Env) (name value service : String) (t v : Trace) : Type 0 where
  pub before : Trace
  pub reads : Extends IsRead t before
  -- The CLI took the write.
  pub accepted : Accepted env name value service before
  pub after : Extends IsRead (redeploy_event service ∷ write_event name value service ∷ before) v

pub IsRedeployed-IsStable :
    (env : Env) (name value service : String) (t : Trace)
    → IsStable (IsRedeployed env name value service t)
IsRedeployed-IsStable env name value service t = record {
  read = λ k h. record {
    before = h.before;
    reads = h.reads;
    accepted = h.accepted;
    after = more k h.after;
  };
}

-- What the state of a run that started at `t` is, by what its error says: only reads; reads and
-- then the one write; or the write, the one redeploy, and reads. Nothing else is ever called.
abbrev pub Footprint : Env → (name value service : String) → Trace → Standing → Trace → Type 0
Footprint env name value service t unchanged u = Extends IsRead t u
Footprint env name value service t uncertain u =
    (before : Trace) × Extends IsRead t before × (u ≡ write_event name value service ∷ before)
Footprint env name value service t unverified u = IsRedeployed env name value service t u

pub Footprint-unchanged :
    (env : Env) (name value service : String) (t : Trace) (e : Error) (u : Trace)
    → Extends IsRead t u × (standing e ≡ unchanged)
    → Footprint env name value service t (standing e) u
Footprint-unchanged env name value service t e u (h, s) = rw s h

-- A run that read before it left the same.
pub Footprint-trans :
    (env : Env) (name value service : String) (t s : Trace) (k : Standing) (u : Trace)
    → Extends IsRead t s
    → Footprint env name value service s k u
    → Footprint env name value service t k u
Footprint-trans env name value service t s unchanged u h f = Extends-trans h f
Footprint-trans env name value service t s uncertain u h (before, reads, e) =
    (before, Extends-trans h reads, e)
Footprint-trans env name value service t s unverified u h f = record {
  before = f.before;
  reads = Extends-trans h f.reads;
  accepted = f.accepted;
  after = f.after;
}

Footprint-unverified :
    (env : Env) (name value service : String) (t : Trace) (e : Error) (u : Trace)
    → IsRedeployed env name value service t u × (standing e ≡ unverified)
    → Footprint env name value service t (standing e) u
Footprint-unverified env name value service t e u (h, s) = rw s h

abbrev Written : Env → (name value service : String) → Trace → Trace → Type 0
Written env name value service t u =
    (before : Trace) × Extends IsRead t before
    × Accepted env name value service before
    × (u ≡ write_event name value service ∷ before)

module _ (env : Env) {t : Trace} where
  Triple-write_or_uncertain :
      (name value service : String)
      → Triple
          (Extends IsRead t)
          (write_or_uncertain env name value service)
          (λ _. Written env name value service t)
          (λ e. Footprint env name value service t (standing e))
  unfolding write_or_uncertain
  Triple-write_or_uncertain name value service =
      Triple-try {F = λ _. Footprint env name value service t uncertain}
        (Triple-write_railway_variable env name value service true
          (λ s u e h. (u, h, record { stdout = s; taken = e }, refl)) (λ s u h. (u, h, refl)))
        (λ cause. Triple-throw _ (λ u h. h))

  -- The write, and all that follows it.
  pub Triple-write_and_verify :
      (name value service : String) (setup_username : Option String)
      (poll_seconds timeout_minutes : ℕ) (prior : String)
      → Triple
          (Extends IsRead t)
          (write_or_uncertain env name value service
            >> redeploy_and_verify env name value service setup_username poll_seconds
                timeout_minutes prior)
          (λ _. ReadBack env name service value (IsRedeployed env name value service t))
          (λ e. Footprint env name value service t (standing e))
  Triple-write_and_verify name value service setup_username poll_seconds timeout_minutes prior =
      Triple-bind (Triple-write_or_uncertain name value service) (λ _.
        Triple-error (Footprint-unverified env name value service t) (
          Triple-redeploy_and_verify env (IsRedeployed-IsStable env name value service t) name value
            service _ _ _ prior
            (λ u (before, reads, taken, e).
              rw e (record { before = before; reads = reads; accepted = taken; after = same }))))
