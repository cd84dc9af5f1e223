-- ===== src/Guard/Scope.antt =====
-- What the guard lets through.
use openclaw_control_plane.Common.{
  String, Bool, true, false, ◌&&◌, ◌||◌, not, List, [], ◌∷◌, ◌≡◌, refl, sym, ap, ◌∙◌, subst, ◌⊎◌,
  inl, inr, arith, ◌==◌, string_eq, nat_eq, contains, head?, Bool-cases,
}
use openclaw_control_plane.Guard.{
  secrets_flag, allowed, starts_with_dash, is_service_flag, is_service_value, has_service_flag,
  check_scope, check_guard, strip_guard_flag,
}

dashed : starts_with_dash secrets_flag ≡ true
unfolding starts_with_dash nat_eq
dashed = refl

short_differs : ("-s" == secrets_flag) ≡ false
unfolding string_eq
short_differs = refl

long_differs : ("--service" == secrets_flag) ≡ false
unfolding string_eq
long_differs = refl

flag_kept : (arg : String) → is_service_flag arg ≡ true → (arg == secrets_flag) ≡ false
flag_kept arg h = ground (arith, short_differs, long_differs)

plain_kept : (a : String) → not (starts_with_dash a) ≡ true → (a == secrets_flag) ≡ false
plain_kept a h = ground (arith, dashed)

value_kept :
    (args : List String)
    → is_service_value (head? args) ≡ true
    → is_service_value (head? (strip_guard_flag args)) ≡ true
unfolding strip_guard_flag
value_kept [] h = cc
value_kept (a ∷ args) h = rw (plain_kept a h) h

either_kept :
    (flag value later value' later' : Bool)
    → (flag && value || later) ≡ true
    → (value ≡ true → value' ≡ true)
    → (later ≡ true → later' ≡ true)
    → (flag && value' || later') ≡ true
either_kept true true later true later' h v l = refl
either_kept true true later false later' h v l = let bad : false ≡ true = v refl in cc
either_kept true false later true later' h v l = refl
either_kept true false later false later' h v l = l h
either_kept false value later value' later' h v l = l h

no_flag : (a : String) → (a == secrets_flag) ≡ true → is_service_flag a ≡ false
no_flag a h = elim (Bool-cases (is_service_flag a)) [
  | inl e ↦ let bad : true ≡ false = sym h ∙ flag_kept a e in cc
  | inr e ↦ e
]

-- The service flag survives: the stripped flag is neither it nor its value.
has_service_flag-strip :
    (args : List String)
    → has_service_flag args ≡ true
    → has_service_flag (strip_guard_flag args) ≡ true
unfolding has_service_flag strip_guard_flag
has_service_flag-strip [] h = cc
has_service_flag-strip (a ∷ args) h = elim (Bool-cases (a == secrets_flag)) [
  | inl e ↦ rw e (has_service_flag-strip args (rw (no_flag a e) at h))
  | inr e ↦ rw e (
      either_kept (is_service_flag a) (is_service_value (head? args)) (has_service_flag args) _ _ h
        (value_kept args) (has_service_flag-strip args))
]

stripped_clean : (args : List String) → contains (strip_guard_flag args) secrets_flag ≡ false
unfolding strip_guard_flag
stripped_clean [] = refl
stripped_clean (a ∷ args) = ground (arith, stripped_clean args)

-- What is run: `variable list` or `variable set`, for a named service, without the guard's flag.
pub record IsScoped (args run : List String) : Type 0 where
  pub rest : List String
  pub subcommand :
      (run ≡ "variable" ∷ "set" ∷ rest)
      ⊎ ((run ≡ "variable" ∷ "list" ∷ rest) × (contains args secrets_flag ≡ true))
  pub scoped : has_service_flag run ≡ true
  pub clean : contains run secrets_flag ≡ false

variable_kept :
    (s : String) (args : List String)
    → (s ≡ "set") ⊎ (s ≡ "list")
    → strip_guard_flag ("variable" ∷ s ∷ args) ≡ "variable" ∷ s ∷ strip_guard_flag args
unfolding strip_guard_flag string_eq
variable_kept s args (inl e) = rw e refl
variable_kept s args (inr e) = rw e refl

scope_lem :
    (s : String) (all : List String)
    → check_scope s all ≡ allowed
    → (has_service_flag all ≡ true) × (((s == "list") ≡ false) ⊎ (contains all secrets_flag ≡ true))
unfolding check_scope
scope_lem s all h = ground arith

-- The subcommand, by the tests on it.
subcommand_lem :
    (s : String) (all : List String)
    → (s == "list" || s == "set") ≡ true
    → ((s == "list") ≡ false) ⊎ (contains all secrets_flag ≡ true)
    → (s ≡ "set") ⊎ ((s ≡ "list") × (contains all secrets_flag ≡ true))
subcommand_lem s all h (inl e) = inl (ground arith)
subcommand_lem s all h (inr e) = ground arith

check_guard_lem :
    (resource s : String) (args : List String)
    → check_guard (resource ∷ s ∷ args) ≡ allowed
    → (resource ≡ "variable")
      × ((s == "list" || s == "set") ≡ true)
      × (check_scope s (resource ∷ s ∷ args) ≡ allowed)
unfolding check_guard
check_guard_lem resource s args h = ground arith

kept_lem :
    (s : String) (args : List String)
    → (s ≡ "set") ⊎ ((s ≡ "list") × (contains ("variable" ∷ s ∷ args) secrets_flag ≡ true))
    → (strip_guard_flag ("variable" ∷ s ∷ args) ≡ "variable" ∷ "set" ∷ strip_guard_flag args)
      ⊎ ((strip_guard_flag ("variable" ∷ s ∷ args) ≡ "variable" ∷ "list" ∷ strip_guard_flag args)
          × (contains ("variable" ∷ s ∷ args) secrets_flag ≡ true))
kept_lem s args (inl e) =
    inl (variable_kept s args (inl e) ∙ ap (λ x. "variable" ∷ x ∷ strip_guard_flag args) e)
kept_lem s args (inr (e, c)) =
    inr (variable_kept s args (inr e) ∙ ap (λ x. "variable" ∷ x ∷ strip_guard_flag args) e, c)

-- Arguments that pass the guard run `variable set`, or `variable list` where the caller gave the
-- flag that accepts printed secrets; what is run names a service, and is free of the guard's flag.
pub check_guard-IsScoped :
    (args : List String) → check_guard args ≡ allowed → IsScoped args (strip_guard_flag args)
unfolding check_guard
check_guard-IsScoped [] h = cc
check_guard-IsScoped (resource ∷ []) h = cc
check_guard-IsScoped (resource ∷ s ∷ args) h =
    let (variable, either, scope) = check_guard_lem resource s args h in
    subst (λ r. IsScoped (r ∷ s ∷ args) (strip_guard_flag (r ∷ s ∷ args))) (sym variable)
      (scoped (subst (λ r. check_scope s (r ∷ s ∷ args) ≡ allowed) variable scope) either)
  where
    scoped :
        check_scope s ("variable" ∷ s ∷ args) ≡ allowed
        → (s == "list" || s == "set") ≡ true
        → IsScoped ("variable" ∷ s ∷ args) (strip_guard_flag ("variable" ∷ s ∷ args))
    scoped scope either =
        let (has, list) = scope_lem s ("variable" ∷ s ∷ args) scope in
        record {
          rest = strip_guard_flag args;
          subcommand = kept_lem s args (subcommand_lem s ("variable" ∷ s ∷ args) either list);
          scoped = has_service_flag-strip ("variable" ∷ s ∷ args) has;
          clean = stripped_clean ("variable" ∷ s ∷ args);
        }
