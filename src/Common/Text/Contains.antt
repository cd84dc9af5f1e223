-- ===== src/Common/Text/Contains.antt =====
-- What `includes` finds.
use Prim.Native.String.append
use Prim.Native.String.{String, ◌++◌ as ◌<>◌}
use mathlib.Core.Path.{◌≡◌, refl, sym, ap, ◌∙◌, subst}
use mathlib.Core.Logic.{◌↔◌, inl, inr}
use mathlib.Core.Bool.{true}
use native.Mathlib.Omega.{arith}
use text.Mathlib.Text.{starts_with}
use text.Mathlib.TextEquality.{starts_with_iff}
use openclaw_control_plane.Common.Equality.{Bool-cases}
use openclaw_control_plane.Common.Text.{includes}

-- The part stands somewhere in the text.
abbrev pub Contains : (text part : String) → Type 0
Contains text part = (before : String) × (after : String) × (text ≡ before <> (part <> after))

starts-Contains : (text part : String) → starts_with text part ≡ true → Contains text part
starts-Contains text part h =
    let (after, e) = (starts_with_iff text part).0 h in
    ("", after, sym (append.nil (part <> after) ∙ e))

starts-includes : (text part : String) → starts_with text part ≡ true → includes text part ≡ true
unfolding includes
starts-includes String.[] part h = h
starts-includes (String.◌∷◌ c s) part h = ground arith

forth : (text part : String) → includes text part ≡ true → Contains text part
unfolding includes
forth String.[] part h = starts-Contains "" part h
forth (String.◌∷◌ c s) part h = elim (Bool-cases (starts_with (String.◌∷◌ c s) part)) [
  | inl e ↦ starts-Contains (String.◌∷◌ c s) part e
  | inr e ↦
      let (before, after, f) = forth s part (ground arith) in
      (
        String.◌∷◌ c before,
        after,
        ap (λ t. String.◌∷◌ c t) f ∙ sym (append.cons c before (part <> after)),
      )
]

includes-append : (before part after : String) → includes (before <> (part <> after)) part ≡ true
unfolding includes
includes-append String.[] part after =
    subst (λ t. includes t part ≡ true) (sym (append.nil (part <> after)))
      (starts-includes (part <> after) part
        ((starts_with_iff (part <> after) part).1 (after, refl)))
includes-append (String.◌∷◌ c s) part after =
    let found : includes (s <> (part <> after)) part ≡ true = includes-append s part after in
    subst (λ t. includes t part ≡ true) (sym (append.cons c s (part <> after))) (ground arith)

pub includes-Contains : (text part : String) → (includes text part ≡ true) ↔ Contains text part
includes-Contains text part = (
  forth text part,
  λ (before, after, e).
      subst (λ t. includes t part ≡ true) (sym e) (includes-append before part after),
)
