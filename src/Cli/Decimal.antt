-- ===== src/Cli/Decimal.antt =====
-- The decimal text of a number, as the command line takes it.
use Prim.Native.Char.{Char, code}
use Prim.Native.String.append
use text.Mathlib.TextEquality.{starts_with_iff}
use openclaw_control_plane.Common.{
  and_then, ℕ, zero, suc, ◌+◌, ◌-◌, ◌*◌, ◌/◌, ◌≤◌, ◌<◌, String, true, false, some, List, ◌∷◌, ◌≡◌,
  refl, sym, subst, ◌∙◌, ap, arith, ltb, if◌then◌else◌, starts_with, ◌==◌, string_eq, Bool-cases,
  inl, inr, ◌≢◌,
}
use Prim.Native.Nat.{◌%◌}
use openclaw_control_plane.Common.Text.{codes}
use openclaw_control_plane.Cli.{
  is_value, digits_value, positive_integer, max_safe_integer, safe_positive,
}

digit : ℕ → Char
digit zero = "0"
digit (suc zero) = "1"
digit (suc (suc zero)) = "2"
digit (suc (suc (suc zero))) = "3"
digit (suc (suc (suc (suc zero)))) = "4"
digit (suc (suc (suc (suc (suc zero))))) = "5"
digit (suc (suc (suc (suc (suc (suc zero)))))) = "6"
digit (suc (suc (suc (suc (suc (suc (suc zero))))))) = "7"
digit (suc (suc (suc (suc (suc (suc (suc (suc zero)))))))) = "8"
digit n = "9"

code-digit : (d : ℕ) → d < 10 → code (digit d) ≡ 48 + d
unfolding digit
code-digit zero h = refl
code-digit (suc zero) h = refl
code-digit (suc (suc zero)) h = refl
code-digit (suc (suc (suc zero))) h = refl
code-digit (suc (suc (suc (suc zero)))) h = refl
code-digit (suc (suc (suc (suc (suc zero))))) h = refl
code-digit (suc (suc (suc (suc (suc (suc zero)))))) h = refl
code-digit (suc (suc (suc (suc (suc (suc (suc zero))))))) h = refl
code-digit (suc (suc (suc (suc (suc (suc (suc (suc zero)))))))) h = refl
code-digit (suc (suc (suc (suc (suc (suc (suc (suc (suc zero))))))))) h = refl
code-digit (suc (suc (suc (suc (suc (suc (suc (suc (suc (suc n)))))))))) h = absurd (omega arith)

first_code : String → ℕ
first_code String.[] = 0
first_code (String.◌∷◌ c s) = code c

starts_with_dash : (c : Char) (s : String) → code c ≢ 45 → starts_with (String.◌∷◌ c s) "--" ≡ false
unfolding first_code
starts_with_dash c s h = elim (Bool-cases (starts_with (String.◌∷◌ c s) "--")) [
  | inr e ↦ e
  | inl e ↦
      let (u, split) = (starts_with_iff (String.◌∷◌ c s) "--").0 e in
      absurd (h (sym (ap first_code (sym (append.cons "-" "-" u) ∙ split))))
]

not_empty : (c : Char) (s : String) → (String.◌∷◌ c s == "") ≡ false
unfolding first_code
not_empty c s = elim (Bool-cases (String.◌∷◌ c s == "")) [
  | inr e ↦ e
  | inl e ↦ let same : String.◌∷◌ c s ≡ "" = ground arith in cc
]

value_digit : (d : ℕ) (s : String) → d < 10 → is_value (String.◌∷◌ (digit d) s) ≡ true
unfolding is_value
value_digit d s h =
    let dashed = starts_with_dash (digit d) s (λ e. absurd (omega (arith, code-digit d h))) in
    let empty : (String.◌∷◌ (digit d) s == "") ≡ false = not_empty (digit d) s in rw (empty, dashed)

-- The digits of a number, before a text; one more round than digits is enough.
print_onto : ℕ → ℕ → String → String
print_onto zero n s = s
print_onto (suc fuel) n s =
    let rest = print_onto fuel (n / 10) (String.◌∷◌ (digit (n % 10)) s) in
    if ltb n 10 then String.◌∷◌ (digit n) s else rest

-- `String(n)`
unfoldable pub print : ℕ → String
unfolding print_onto digit
print n = print_onto (suc n) n ""

digits_value-digit :
    (m d : ℕ) (cs : List ℕ) → d < 10 → digits_value m ((48 + d) ∷ cs) ≡ digits_value (m * 10 + d) cs
unfolding digits_value
digits_value-digit m d cs h =
    let e : m * 10 + (48 + d - 48) ≡ m * 10 + d = omega arith in
    ground (arith, ap (λ (k : ℕ). digits_value k cs) e)

first_digit :
    (n : ℕ) (s : String)
    → n < 10
    → digits_value 0 (codes (String.◌∷◌ (digit n) s)) ≡ digits_value n (codes s)
first_digit n s h =
    ap (λ c. digits_value 0 (c ∷ codes s)) (code-digit n h)
    ∙ digits_value-digit 0 n (codes s) h
    ∙ ap (λ m. digits_value m (codes s)) (omega arith)

digits_value-print :
    (fuel n : ℕ) (s : String)
    → n < fuel
    → digits_value 0 (codes (print_onto fuel n s)) ≡ digits_value n (codes s)
unfolding print_onto digit
digits_value-print zero n s h = absurd (omega arith)
digits_value-print (suc fuel) n s h = elim (Bool-cases (ltb n 10)) [
  | inl e ↦ rw e (first_digit n s (ground arith))
  | inr e ↦
      let last : n % 10 < 10 = omega arith in
      rw e (
        digits_value-print fuel (n / 10) (String.◌∷◌ (digit (n % 10)) s) (ground arith)
        ∙ ap (λ c. digits_value (n / 10) (c ∷ codes s)) (code-digit (n % 10) last)
        ∙ digits_value-digit (n / 10) (n % 10) (codes s) last
        ∙ ap (λ m. digits_value m (codes s)) (omega arith))
]

-- A printed number has a first digit.
print_onto-digit :
    (fuel n : ℕ) (s : String)
    → n < fuel
    → (d : ℕ) × (t : String) × (d < 10) × (print_onto fuel n s ≡ String.◌∷◌ (digit d) t)
unfolding print_onto digit
print_onto-digit zero n s h = absurd (omega arith)
print_onto-digit (suc fuel) n s h = elim (Bool-cases (ltb n 10)) [
  | inl e ↦ (n, s, ground arith, rw e)
  | inr e ↦
      let (d, t, small, first) =
        print_onto-digit fuel (n / 10) (String.◌∷◌ (digit (n % 10)) s) (ground arith) in
      (d, t, small, rw e first)
]

pub is_value-print : (n : ℕ) → is_value (print n) ≡ true
unfolding print
is_value-print n =
    let (d, t, small, first) = print_onto-digit (suc n) n "" (omega arith) in
    rw first (value_digit d t small)

safe_positive_lem : (n : ℕ) → 1 ≤ n → n ≤ max_safe_integer → safe_positive n ≡ some n
unfolding safe_positive
safe_positive_lem n h k = ground arith

positive_integer-digits :
    (s t : String) (d n : ℕ)
    → s ≡ String.◌∷◌ (digit d) t
    → digits_value 0 (codes s) ≡ some n
    → positive_integer s ≡ safe_positive n
unfolding positive_integer
positive_integer-digits s t d n first value =
    let read : digits_value 0 (codes (String.◌∷◌ (digit d) t)) ≡ some n =
      subst (λ u. digits_value 0 (codes u) ≡ some n) first value in
    ap positive_integer first ∙ ap (λ o. and_then o safe_positive) read

-- A positive integer that a double holds is read back.
pub positive_integer-print :
    (n : ℕ) → 1 ≤ n → n ≤ max_safe_integer → positive_integer (print n) ≡ some n
unfolding print digits_value
positive_integer-print n h k =
    let (d, t, small, first) = print_onto-digit (suc n) n "" (omega arith) in
    positive_integer-digits (print n) t d n first (digits_value-print (suc n) n "" (omega arith))
    ∙ safe_positive_lem n h k
