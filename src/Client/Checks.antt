-- ===== src/Client/Checks.antt =====
-- The tests of an update, against what the caller expects.
use openclaw_control_plane.Common.{
  String, true, false, ◌&&◌, not, Option, none, some, ◌≡◌, ◌==◌, option_eq, string_eq, arith,
  if◌then◌else◌,
}
use openclaw_control_plane.Effects.Errors.{Error}
use openclaw_control_plane.Effects.Reads.{unchanged, standing}
use openclaw_control_plane.Client.{
  UpdateParams, expected_ref_unset, check_unset, check_no_op, check_expected,
}

-- The value that the caller says is set.
abbrev pub expectation : UpdateParams → Option String
expectation p =
    if p.expected_current_ref == expected_ref_unset then none else some p.expected_current_ref

pub check_unset-error :
    (p : UpdateParams) (current : Option String) (e : Error)
    → check_unset p current ≡ some e
    → standing e ≡ unchanged
unfolding check_unset
check_unset-error p none e h = ground arith
check_unset-error p (some current) e h = ground arith

pub check_no_op-error :
    (p : UpdateParams) (e : Error) → check_no_op p ≡ some e → standing e ≡ unchanged
unfolding check_no_op
check_no_op-error p e h = ground arith

pub check_expected-error :
    (p : UpdateParams) (current : Option String) (e : Error)
    → check_expected p current ≡ some e
    → standing e ≡ unchanged
unfolding check_expected
check_expected-error p none e h = cc
check_expected-error p (some current) e h = ground arith

-- The tests of the branch that changes nothing pass just when the value is what the caller expects.
pub confirmed_lem :
    (p : UpdateParams) (current : Option String)
    → check_unset p current ≡ none
    → (current == some p.next_ref && not p.force_redeploy) ≡ true
    → check_no_op p ≡ none
    → (current ≡ expectation p) × (expectation p ≡ some p.next_ref)
unfolding check_unset check_no_op
confirmed_lem p none passed at_ref agreed = ground arith
confirmed_lem p (some current) passed at_ref agreed = ground arith

pub forced_lem :
    (p : UpdateParams) (current : Option String)
    → (current == some p.next_ref && not p.force_redeploy) ≡ false
    → current ≡ some p.next_ref
    → p.force_redeploy ≡ true
forced_lem p current h e = ground arith

-- Both tests pass just when the value is what the caller expects.
pub checks_passed :
    (p : UpdateParams) (current : Option String)
    → check_unset p current ≡ none
    → check_expected p current ≡ none
    → current ≡ expectation p
unfolding check_unset check_expected
checks_passed p none h k = ground arith
checks_passed p (some current) h k = ground arith
