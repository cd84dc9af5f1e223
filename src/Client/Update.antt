-- ===== src/Client/Update.antt =====
-- The compare-and-swap protocol of `updateClientRefVariable`.
use openclaw_control_plane.Common.{
  String, true, false, ◌&&◌, not, Option, none, some, ◌≡◌, refl, ◌≢◌, ◌==◌, option_eq, string_eq,
  arith, inl, inr, if◌then◌else◌, ◌⊎◌, ◌∙◌, ◌∷◌, subst,
}
use openclaw_control_plane.Effects.Errors.{Error}
use openclaw_control_plane.Effects.Platform.{Env, Trace, command}
use openclaw_control_plane.Effects.{Out, done, threw, ◌>>◌}
use openclaw_control_plane.Effects.Reads.{
  IsRead, unchanged, standing, Extends, same, more, Extends-IsStable, variable_list,
}
use openclaw_control_plane.Effects.Triple.{
  Triple, Triple-given, Triple-pure, Triple-if, Triple-bind, Triple-error, Triple-done,
  Triple-threw,
}
use openclaw_control_plane.Railway.{variable_list_args}
use openclaw_control_plane.Railway.Calls.{Reads, Reads-unique, Triple-read_railway_variable}
use openclaw_control_plane.Client.{
  UpdateParams, UpdateResult, check_unset, check_no_op, check_expected, refuse, confirm_ref,
  change_ref, update_client_ref_variable,
}
use openclaw_control_plane.Client.Footprint.{
  Footprint, IsRedeployed, Footprint-unchanged, Triple-write_and_verify,
}
use openclaw_control_plane.Client.Phases.{
  Quiet-assert_instance_ready, Quiet-prior_deployment_id, Triple-refuse, ReadBack,
}
use openclaw_control_plane.Client.Checks.{
  expectation, check_unset-error, check_no_op-error, check_expected-error, confirmed_lem,
  forced_lem, checks_passed,
}

-- A run from `t` to `u` that changed nothing: the first read found the requested ref, as the
-- caller expected, and no redeploy was forced.
pub record IsConfirmed (env : Env) (p : UpdateParams) (t u : Trace) : Type 0 where
  pub current : Reads env p.variable_name p.service t (expectation p)
  pub at_ref : expectation p ≡ some p.next_ref
  pub unforced : p.force_redeploy ≡ false
  pub reads : Extends IsRead t u

-- A run from `t` to `u` that changed the ref: the first read found what the caller expected, one
-- write and one redeploy of that service followed, and the last event of the run is a read that
-- found the requested ref.
pub record IsChanged (env : Env) (p : UpdateParams) (t u : Trace) : Type 0 where
  pub current : Reads env p.variable_name p.service t (expectation p)
  pub needed : expectation p ≡ some p.next_ref → p.force_redeploy ≡ true
  pub read_back :
      ReadBack env p.variable_name p.service p.next_ref
        (IsRedeployed env p.variable_name p.next_ref p.service t)
        u

abbrev pub Updated : Env → UpdateParams → Trace → UpdateResult → Trace → Type 0
Updated env p t r u =
    ((r ≡ record { changed = false; new_deployment_ready = false }) × IsConfirmed env p t u)
    ⊎ ((r ≡ record { changed = true; new_deployment_ready = true }) × IsChanged env p t u)

module _ (env : Env) (p : UpdateParams) (t : Trace) where
  -- The footprint; and where something was written, the value was the expected one before.
  abbrev After : Error → Trace → Type 0
  After e u =
      Footprint env p.variable_name p.next_ref p.service t (standing e) u
      × ((standing e ≡ unchanged) ⊎ Reads env p.variable_name p.service t (expectation p))

  After-unchanged :
      (e : Error) (u : Trace) → Extends IsRead t u × (standing e ≡ unchanged) → After e u
  After-unchanged e u h = (Footprint-unchanged env _ _ _ t e u h, inl h.1)

  Quietly-refuse :
      (o : Option Error)
      → ((e : Error) → o ≡ some e → standing e ≡ unchanged)
      → Triple (Extends IsRead t) (refuse o) (λ _ u. Extends IsRead t u × (o ≡ none)) After
  Quietly-refuse o quiet =
      Triple-error (λ e u (h, x). After-unchanged e u (h, quiet e x)) (Triple-refuse o)

  Triple-confirm_ref :
      (current : Option String)
      → Reads env p.variable_name p.service t current
      → check_unset p current ≡ none
      → (current == some p.next_ref && not p.force_redeploy) ≡ true
      → Triple (Extends IsRead t) (confirm_ref env p) (Updated env p t) After
  unfolding confirm_ref
  Triple-confirm_ref current w passed at_ref =
      Triple-bind (Quietly-refuse (check_no_op p) (check_no_op-error p)) (λ _.
        Triple-given λ agreed.
          Triple-bind
            (Triple-error After-unchanged
              (Quiet-assert_instance_ready env Extends-IsStable _ _ _ _ _))
            (λ _. Triple-pure _ (λ u reads. inl (
              refl,
              record {
                current =
                    subst (λ v. Reads env p.variable_name p.service t v)
                      (confirmed_lem p current passed at_ref agreed).0 w;
                at_ref = (confirmed_lem p current passed at_ref agreed).1;
                unforced = ground arith;
                reads = reads;
              },
            ))))

  Triple-change_ref :
      Reads env p.variable_name p.service t (expectation p)
      → (expectation p ≡ some p.next_ref → p.force_redeploy ≡ true)
      → Triple (Extends IsRead t) (change_ref env p) (Updated env p t) After
  unfolding change_ref
  Triple-change_ref w needed =
      Triple-bind
        (Triple-error After-unchanged (Quiet-prior_deployment_id env Extends-IsStable _ _))
        (λ prior.
          Triple-bind
            (Triple-error (λ e u h. (h, inr w)) (Triple-write_and_verify env _ _ _ _ _ _ prior))
            (λ _.
              Triple-pure _
                (λ u back. inr (refl, record { current = w; needed = needed; read_back = back }))))

  first_read :
      {current : Option String} (u : Trace)
      → Reads env p.variable_name p.service u current
      → u ≡ t
      → Extends IsRead t (command (variable_list_args p.service) none ∷ u)
        × Reads env p.variable_name p.service t current
  first_read {current} u w e = (
    rw e (more variable_list same),
    subst (λ v. Reads env p.variable_name p.service v current) e w,
  )

  decide_ref :
      (current : Option String)
      → Reads env p.variable_name p.service t current
      → check_unset p current ≡ none
      → Triple
          (Extends IsRead t)
          (if current == some p.next_ref && not p.force_redeploy
            then confirm_ref env p
            else (refuse (check_expected p current) >> change_ref env p))
          (Updated env p t)
          After
  decide_ref current w passed = Triple-if _ (Triple-confirm_ref current w passed) (λ stale.
      Triple-bind (Quietly-refuse (check_expected p current) (check_expected-error p current)) (λ _.
        Triple-given λ agreed.
          let same_value : current ≡ expectation p = checks_passed p current passed agreed in
          Triple-change_ref (subst (λ v. Reads env p.variable_name p.service t v) same_value w)
            (λ at_ref. forced_lem p current stale (same_value ∙ at_ref))))

  Triple-update : Triple (λ u. u ≡ t) (update_client_ref_variable env p) (Updated env p t) After
  unfolding update_client_ref_variable
  Triple-update =
      Triple-bind
        {Q = λ current u. Extends IsRead t u × Reads env p.variable_name p.service t current}
        (Triple-read_railway_variable env _ _ (λ v u w e. first_read u w e)
          (λ s u e. (rw e (more variable_list same), inl refl)))
        (λ current. Triple-given λ w.
          Triple-bind (Quietly-refuse (check_unset p current) (check_unset-error p current))
            (λ _. Triple-given λ passed. decide_ref current w passed))

-- An update that returns has either changed nothing, having found the requested ref as the caller
-- expected; or it found the value that the caller expected, wrote the ref once, redeployed that
-- service once, touched nothing else, and then read the requested ref back.
pub update_client_ref_variable-Updated :
    (env : Env) (p : UpdateParams) (t u : Trace) (r : UpdateResult)
    → update_client_ref_variable env p t ≡ done r u
    → ((r ≡ record { changed = false; new_deployment_ready = false }) × IsConfirmed env p t u)
      ⊎ ((r ≡ record { changed = true; new_deployment_ready = true }) × IsChanged env p t u)
update_client_ref_variable-Updated env p t u r e = Triple-done (Triple-update env p t) refl e

-- The error of an update that throws tells the state it leaves: nothing was written; one write was
-- sent and its outcome is unknown, with no redeploy; or the write and one redeploy of that service
-- were made, followed by reads only.
pub update_client_ref_variable-Footprint :
    (env : Env) (p : UpdateParams) (t u : Trace) (e : Error)
    → update_client_ref_variable env p t ≡ threw e u
    → Footprint env p.variable_name p.next_ref p.service t (standing e) u
update_client_ref_variable-Footprint env p t u e h = (Triple-threw (Triple-update env p t) refl h).0

-- A write by an update that throws met the value that the caller expects.
pub update_client_ref_variable-guarded :
    (env : Env) (p : UpdateParams) (t u : Trace) (e : Error)
    → update_client_ref_variable env p t ≡ threw e u
    → (standing e ≡ unchanged) ⊎ Reads env p.variable_name p.service t (expectation p)
update_client_ref_variable-guarded env p t u e h = (Triple-threw (Triple-update env p t) refl h).1

stale_lem :
    (env : Env) (p : UpdateParams) (t : Trace) (current : Option String) (o : Out UpdateResult)
    → update_client_ref_variable env p t ≡ o
    → Reads env p.variable_name p.service t current
    → current ≢ expectation p
    → (e : Error) × (u : Trace) × (update_client_ref_variable env p t ≡ threw e u)
      × Extends IsRead t u
stale_lem env p t current (done r u) h w stale =
    elim (update_client_ref_variable-Updated env p t u r h) [
      | inl (_, c) ↦ absurd (stale (Reads-unique w c.current))
      | inr (_, c) ↦ absurd (stale (Reads-unique w c.current))
    ]
stale_lem env p t current (threw e u) h w stale =
    elim (update_client_ref_variable-guarded env p t u e h) [
      | inl quiet ↦ (
        e,
        u,
        h,
        subst (λ s. Footprint env p.variable_name p.next_ref p.service t s u) quiet
            (update_client_ref_variable-Footprint env p t u e h),
      )
      | inr expected ↦ absurd (stale (Reads-unique w expected))
    ]

-- A value that is not the one that the caller expects is never overwritten: the update throws, and
-- has only read.
pub update_client_ref_variable-stale :
    (env : Env) (p : UpdateParams) (t : Trace) (current : Option String)
    → Reads env p.variable_name p.service t current
    → current ≢ expectation p
    → (e : Error) × (u : Trace) × (update_client_ref_variable env p t ≡ threw e u)
      × Extends IsRead t u
update_client_ref_variable-stale env p t current w stale = stale_lem env p t current _ refl w stale
