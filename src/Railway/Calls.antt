-- ===== src/Railway/Calls.antt =====
-- One rule for each call of the Railway CLI: what it leaves in the trace, and what its result is in
-- terms of the environment's answer.
use openclaw_control_plane.Common.{String, Bool, Option, none, some, List, ◌∷◌, ◌≡◌, refl}
use openclaw_control_plane.Effects.Errors.{Error, external}
use openclaw_control_plane.Effects.Platform.{Env, command, Trace, Reply, ok, rejected}
use openclaw_control_plane.Effects.{run, ◌>>=◌, await, continue, settle}
use openclaw_control_plane.Effects.Triple.{
  Triple, Holds, Holds-settle, Triple-pure, Triple-bind, Triple-run,
}
use openclaw_control_plane.Railway.{
  query, list_railway_variables, read_railway_variable, write_railway_variable, variable_set_args,
  variable_list_args, lookup_variable,
}

-- The CLI answered a command at a trace, and its output was read as this value.
pub record Answered (env : Env) {A : Type 0} (args : List String) (parse : String → Reply A)
    (t : Trace) (value : A) : Type 0 where
  pub stdout : String
  pub printed : env.run t args none ≡ ok stdout
  pub parsed : parse stdout ≡ ok value

-- The value of a variable that `variable list` reports at a trace.
pub record Reads (env : Env) (name service : String) (t : Trace) (value : Option String)
    : Type 0 where
  pub variables : List (String × String)
  pub listed : Answered env (variable_list_args service) env.variables t variables
  pub found : lookup_variable name variables ≡ value

-- A trace determines what is read at it.
pub Reads-unique :
    {env : Env} {name service : String} {t : Trace} {value value' : Option String}
    → Reads env name service t value
    → Reads env name service t value'
    → value ≡ value'
Reads-unique r r' =
    cc (r.listed.printed, r'.listed.printed, r.listed.parsed, r'.listed.parsed, r.found, r'.found)

Holds-query :
    {A : Type 0} (env : Env) (Q : A → Trace → Type 0) (E : Error → Trace → Type 0)
    (args : List String) (parse : String → Reply A) (t : Trace) (r : Reply String)
    → env.run t args none ≡ r
    → ((value : A) → Answered env args parse t value → Q value (command args none ∷ t))
    → ((s : String) → E (external s) (command args none ∷ t))
    → Holds Q E (continue (λ stdout. await (parse stdout)) (settle r (command args none ∷ t)))
unfolding await
Holds-query env Q E args parse t (ok stdout) e q f =
    Holds-settle Q E (parse stdout)
      (λ a p. q a (record { stdout = stdout; printed = e; parsed = p })) f
Holds-query env Q E args parse t (rejected s) e q f = f s

module _ {P : Trace → Type 0} {E : Error → Trace → Type 0} (env : Env) where
  pub Triple-query :
      {A : Type 0} {Q : A → Trace → Type 0} (args : List String) (parse : String → Reply A)
      → ((value : A) (t : Trace)
          → Answered env args parse t value
          → P t
          → Q value (command args none ∷ t))
      → ((s : String) (t : Trace) → P t → E (external s) (command args none ∷ t))
      → Triple P (query env args parse) Q E
  unfolding query run ◌>>=◌
  Triple-query args parse q f = record {
    at = λ t h.
        Holds-query env _ _ args parse t (env.run t args none) refl (λ a w. q a t w h)
          (λ s. f s t h);
  }

  pub Triple-read_railway_variable :
      {Q : Option String → Trace → Type 0} (name service : String)
      → ((value : Option String) (t : Trace)
          → Reads env name service t value
          → P t
          → Q value (command (variable_list_args service) none ∷ t))
      → ((s : String) (t : Trace)
          → P t
          → E (external s) (command (variable_list_args service) none ∷ t))
      → Triple P (read_railway_variable env name service) Q E
  unfolding read_railway_variable list_railway_variables
  Triple-read_railway_variable {Q} name service q f =
      Triple-bind {Q = λ vs u. Q (lookup_variable name vs) u}
        (Triple-query _ _
          (λ vs t w h. q _ t (record { variables = vs; listed = w; found = refl }) h) f)
        (λ vs. Triple-pure _ (λ t h. h))

  pub Triple-write_railway_variable :
      {Q : Unit {0} → Trace → Type 0} (name value service : String) (skip : Bool)
      → ((s : String) (t : Trace)
          → env.run t (variable_set_args name service skip) (some value) ≡ ok s
          → P t
          → Q tt (command (variable_set_args name service skip) (some value) ∷ t))
      → ((s : String) (t : Trace)
          → P t
          → E (external s) (command (variable_set_args name service skip) (some value) ∷ t))
      → Triple P (write_railway_variable env name value service skip) Q E
  unfolding write_railway_variable
  Triple-write_railway_variable {Q} name value service skip q f =
      Triple-bind {Q = λ _ u. Q tt u} (Triple-run env _ _ q f) (λ _. Triple-pure _ (λ t h. h))
