-- ===== src/Client/Refinement.antt =====
-- packages/openclaw-railway-installer/src/provision-client.ts: `updateClientRefVariable` against the
-- cell that it swaps.
use openclaw_control_plane.Common.{
  String, Option, some, ◌≡◌, refl, sym, ◌∙◌, ◌⊎◌, inl, inr, ◌∷◌, if◌then◌else◌, subst,
}
use openclaw_control_plane.Effects.Platform.{Env, Event, Trace}
use openclaw_control_plane.Effects.{Out, done, threw, final}
use openclaw_control_plane.Effects.Reads.{
  IsRead, Standing, unchanged, uncertain, unverified, standing, Extends, same, more, variable_list,
}
use openclaw_control_plane.Railway.Calls.{Reads}
use openclaw_control_plane.Client.{UpdateParams, UpdateResult, update_client_ref_variable}
use openclaw_control_plane.Client.Phases.{ReadBack, observed}
use openclaw_control_plane.Client.Footprint.{
  Accepted, Footprint, IsRedeployed, write_event, redeploy_event,
}
use openclaw_control_plane.Client.Checks.{expectation}
use openclaw_control_plane.Client.Update.{
  IsConfirmed, IsChanged, Updated, update_client_ref_variable-Updated,
  update_client_ref_variable-Footprint, update_client_ref_variable-guarded,
}

-- The platform keeps a variable of a service in a cell that nobody else writes: `cell t` is what
-- it holds after the events `t`. A listing reports it, an accepted write sets it, a write that
-- failed may have set it, and neither reading nor a redeploy changes it.
pub record IsCell (env : Env) (name service : String) (cell : Trace → Option String) : Type 0 where
  pub listed : {t : Trace} {value : Option String} → Reads env name service t value → value ≡ cell t
  pub accepts :
      {t : Trace} {value : String}
      → Accepted env name value service t
      → cell (write_event name value service ∷ t) ≡ some value
  pub settles :
      {t : Trace} {value : String}
      → (cell (write_event name value service ∷ t) ≡ some value)
        ⊎ (cell (write_event name value service ∷ t) ≡ cell t)
  pub kept : {e : Event} {t : Trace} → IsRead e → cell (e ∷ t) ≡ cell t
  pub redeploys : {t : Trace} → cell (redeploy_event service ∷ t) ≡ cell t

-- How an update ends, for its caller.
pub data Outcome : Type 0 where
  swapped confirmed : Outcome
  failed : Standing → Outcome

abbrev pub outcome : Out UpdateResult → Outcome
outcome (done r u) = if r.changed then swapped else confirmed
outcome (threw e u) = failed (standing e)

-- The specification: a compare-and-swap of a cell, from its value before to its value after. It
-- may fail at any value without a change; what else it does, it does to the expected value only.
pub data CompareAndSwap (expected : Option String) (next : String)
    : Option String → Outcome → Option String → Type 0 where
  swap : CompareAndSwap expected next expected swapped (some next)
  confirm : expected ≡ some next → CompareAndSwap expected next expected confirmed expected
  refuse : {value : Option String} → CompareAndSwap expected next value (failed unchanged) value
  lose : CompareAndSwap expected next expected (failed uncertain) expected
  arrive : CompareAndSwap expected next expected (failed uncertain) (some next)
  overwrite : CompareAndSwap expected next expected (failed unverified) (some next)

module _ {env : Env} {name service : String} {cell : Trace → Option String}
    (law : IsCell env name service cell) where
  Extends-kept : {t u : Trace} → Extends IsRead t u → cell u ≡ cell t
  Extends-kept same = refl
  Extends-kept (more k h) = law.kept k ∙ Extends-kept h

  IsRedeployed-cell :
      {value : String} {t u : Trace} → IsRedeployed env name value service t u → cell u ≡ some value
  IsRedeployed-cell h = Extends-kept h.after ∙ (law.redeploys ∙ law.accepts h.accepted)

  ReadBack-cell :
      {value : String} {t u : Trace}
      → ReadBack env name service value (IsRedeployed env name value service t) u
      → cell u ≡ some value
  ReadBack-cell (observed w h) = law.kept variable_list ∙ IsRedeployed-cell h

  -- The same step, between the values that the cell is known to have.
  between :
      {expected before after : Option String} {next : String} {o : Outcome} {t u : Trace}
      → before ≡ cell t
      → cell u ≡ after
      → CompareAndSwap expected next before o after
      → CompareAndSwap expected next (cell t) o (cell u)
  between {expected} {before} {after} {next} {o} {t} {u} e f step =
      subst (λ v. CompareAndSwap expected next v o (cell u)) e
        (subst (λ v. CompareAndSwap expected next before o v) (sym f) step)

abbrev Step : UpdateParams → (Trace → Option String) → (t u : Trace) → Outcome → Type 0
Step p cell t u o = CompareAndSwap (expectation p) p.next_ref (cell t) o (cell u)

module _ {env : Env} (p : UpdateParams) {cell : Trace → Option String}
    (law : IsCell env p.variable_name p.service cell) {t u : Trace} where
  Confirmed-step : IsConfirmed env p t u → Step p cell t u confirmed
  Confirmed-step h =
      between law (law.listed h.current) (Extends-kept law h.reads ∙ sym (law.listed h.current))
        (confirm h.at_ref)

  Changed-step : IsChanged env p t u → Step p cell t u swapped
  Changed-step h = between law (law.listed h.current) (ReadBack-cell law h.read_back) swap

  Updated-step : (r : UpdateResult) → Updated env p t r u → Step p cell t u (outcome (done r u))
  Updated-step r (inl (e, h)) = rw e (Confirmed-step h)
  Updated-step r (inr (e, h)) = rw e (Changed-step h)

  Uncertain-step :
      Reads env p.variable_name p.service t (expectation p)
      → Footprint env p.variable_name p.next_ref p.service t uncertain u
      → Step p cell t u (failed uncertain)
  Uncertain-step w (before, reads, e) =
      let written = subst (λ v. cell u ≡ cell v) e refl in
      elim (law.settles {t = before} {value = p.next_ref}) [
        | inl took ↦ between law (law.listed w) (written ∙ took) arrive
        | inr kept ↦
            between law (law.listed w)
              (written ∙ (kept ∙ (Extends-kept law reads ∙ sym (law.listed w)))) lose
      ]

  failed_step :
      (s : Standing)
      → (s ≡ unchanged) ⊎ Reads env p.variable_name p.service t (expectation p)
      → Footprint env p.variable_name p.next_ref p.service t s u
      → Step p cell t u (failed s)
  failed_step unchanged guarded h =
      between law {expected = expectation p} {next = p.next_ref} refl (Extends-kept law h) refuse
  failed_step uncertain (inl e) h = cc
  failed_step uncertain (inr w) h = Uncertain-step w h
  failed_step unverified (inl e) h = cc
  failed_step unverified (inr w) h = between law (law.listed w) (IsRedeployed-cell law h) overwrite

refines_lem :
    (env : Env) (p : UpdateParams) (cell : Trace → Option String) (t : Trace) (o : Out UpdateResult)
    → IsCell env p.variable_name p.service cell
    → update_client_ref_variable env p t ≡ o
    → CompareAndSwap (expectation p) p.next_ref (cell t) (outcome o) (cell (final o))
refines_lem env p cell t (done r u) law h =
    Updated-step p law r (update_client_ref_variable-Updated env p t u r h)
refines_lem env p cell t (threw e u) law h =
    failed_step p law (standing e) (update_client_ref_variable-guarded env p t u e h)
      (update_client_ref_variable-Footprint env p t u e h)

-- Where the platform keeps the variable in a cell that nobody else writes, every update is a step
-- of compare-and-swap on that cell, from what the cell holds before to what it holds after: one
-- that returns has swapped the expected value for the requested one, or has confirmed it; one
-- that throws says by its error what became of the cell, and has only ever replaced the expected
-- value.
pub update_client_ref_variable-CompareAndSwap :
    (env : Env) (p : UpdateParams) (cell : Trace → Option String) (t : Trace)
    → IsCell env p.variable_name p.service cell
    → CompareAndSwap
        (expectation p)
        p.next_ref
        (cell t)
        (outcome (update_client_ref_variable env p t))
        (cell (final (update_client_ref_variable env p t)))
update_client_ref_variable-CompareAndSwap env p cell t law = refines_lem env p cell t _ law refl
