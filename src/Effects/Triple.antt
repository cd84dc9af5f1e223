-- ===== src/Effects/Triple.antt =====
-- Pre- and postconditions of actions, one rule for each way to build an action. `Q` is what holds
-- when the action returns, `E` when it throws.
use openclaw_control_plane.Common.{
  String, Bool, true, false, Option, none, some, List, ◌≡◌, refl, sym, subst, if◌then◌else◌, ◌∷◌, ℕ,
}
use openclaw_control_plane.Effects.Errors.{Error, external}
use openclaw_control_plane.Effects.Platform.{
  command, fetched, slept, drew_random, read_text, wrote_text, Trace, Request, Response, Reply, ok,
  rejected, Env,
}
use openclaw_control_plane.Effects.{
  Out, done, threw, M, pure, throw, await, try_catch, require, ◌>>=◌, continue, recover, settle,
  final, run, fetch, read_file, write_file, now, create_secret, sleep,
}

module _ {A : Type 0} where
  abbrev pub Holds : (A → Trace → Type 0) → (Error → Trace → Type 0) → Out A → Type 0
  Holds Q E (done a t) = Q a t
  Holds Q E (threw e t) = E e t

pub record Triple {A : Type 0} (P : Trace → Type 0) (m : M A) (Q : A → Trace → Type 0)
    (E : Error → Trace → Type 0) : Type 0 where
  pub at : (t : Trace) → P t → Holds Q E (m t)

-- Weaker conclusions.
Holds-weaken :
    {A : Type 0} {Q R : A → Trace → Type 0} {E F : Error → Trace → Type 0} (o : Out A)
    → ((a : A) (t : Trace) → Q a t → R a t)
    → ((e : Error) (t : Trace) → E e t → F e t)
    → Holds Q E o
    → Holds R F o
Holds-weaken (done a t) q e h = q a t h
Holds-weaken (threw x t) q e h = e x t h

Holds-continue :
    {A B : Type 0} {Q : A → Trace → Type 0} {R : B → Trace → Type 0} {E : Error → Trace → Type 0}
    (o : Out A) (f : A → M B)
    → Holds Q E o
    → ((a : A) → Triple (Q a) (f a) R E)
    → Holds R E (continue f o)
Holds-continue (done a t) f h tf = (tf a).at t h
Holds-continue (threw e t) f h tf = h

Holds-recover :
    {A : Type 0} {Q : A → Trace → Type 0} {E F : Error → Trace → Type 0} (o : Out A)
    (handler : Error → M A)
    → Holds Q E o
    → ((e : Error) → Triple (E e) (handler e) Q F)
    → Holds Q F (recover handler o)
Holds-recover (done a t) handler h th = h
Holds-recover (threw e t) handler h th = (th e).at t h

pub Holds-settle :
    {A : Type 0} (Q : A → Trace → Type 0) (E : Error → Trace → Type 0) (r : Reply A) {t : Trace}
    → ((a : A) → r ≡ ok a → Q a t)
    → ((s : String) → E (external s) t)
    → Holds Q E (settle r t)
Holds-settle Q E (ok a) q f = q a refl
Holds-settle Q E (rejected s) q f = f s

module _ {A : Type 0} {P : Trace → Type 0} {Q : A → Trace → Type 0}
    {E : Error → Trace → Type 0} where
  pub Triple-pure : (a : A) → ((t : Trace) → P t → Q a t) → Triple P (pure a) Q E
  unfolding pure
  Triple-pure a h = record { at = h }

  pub Triple-throw : (e : Error) → ((t : Trace) → P t → E e t) → Triple P (throw {A = A} e) Q E
  unfolding throw
  Triple-throw e h = record { at = h }

  pub Triple-if :
      (b : Bool) {m n : M A}
      → (b ≡ true → Triple P m Q E)
      → (b ≡ false → Triple P n Q E)
      → Triple P (if b then m else n) Q E
  Triple-if true km kn = km refl
  Triple-if false km kn = kn refl

  pub Triple-weaken :
      {R : A → Trace → Type 0} {F : Error → Trace → Type 0} {m : M A}
      → ((a : A) (t : Trace) → R a t → Q a t)
      → ((e : Error) (t : Trace) → F e t → E e t)
      → Triple P m R F
      → Triple P m Q E
  Triple-weaken {m} q e k = record { at = λ t h. Holds-weaken (m t) q e (k.at t h) }

  pub Triple-assume :
      {R : Trace → Type 0} {m : M A} → ((t : Trace) → R t → P t) → Triple P m Q E → Triple R m Q E
  Triple-assume h k = record { at = λ t r. k.at t (h t r) }

  pub Triple-error :
      {F : Error → Trace → Type 0} {m : M A}
      → ((e : Error) (t : Trace) → F e t → E e t)
      → Triple P m Q F
      → Triple P m Q E
  Triple-error {m} e k = record { at = λ t h. Holds-weaken (m t) (λ a u x. x) e (k.at t h) }

  -- A fact about values only, taken out of the precondition.
  pub Triple-given : {F : Type 0} {m : M A} → (F → Triple P m Q E) → Triple (λ t. P t × F) m Q E
  Triple-given k = record { at = λ t (h, f). (k f).at t h }

  pub Triple-absurd : {m : M A} → ((t : Trace) → P t → ⊥) → Triple P m Q E
  Triple-absurd no_way = record { at = λ t h. absurd (no_way t h) }

  pub Triple-try :
      {F : Error → Trace → Type 0} {m : M A} {handler : Error → M A}
      → Triple P m Q F
      → ((e : Error) → Triple (F e) (handler e) Q E)
      → Triple P (try_catch m handler) Q E
  unfolding try_catch
  Triple-try {m} {handler} k th = record { at = λ t h. Holds-recover (m t) handler (k.at t h) th }

  pub Triple-require :
      (o : Option A) (e : Error)
      → ((a : A) (t : Trace) → o ≡ some a → P t → Q a t)
      → ((t : Trace) → o ≡ none → P t → E e t)
      → Triple P (require o e) Q E
  unfolding require
  Triple-require none e q f = record { at = λ t h. f t refl h }
  Triple-require (some a) e q f = record { at = λ t h. q a t refl h }

  pub Triple-await :
      (r : Reply A)
      → ((a : A) (t : Trace) → r ≡ ok a → P t → Q a t)
      → ((s : String) (t : Trace) → P t → E (external s) t)
      → Triple P (await r) Q E
  unfolding await
  Triple-await (ok a) q f = record { at = λ t h. q a t refl h }
  Triple-await (rejected s) q f = record { at = λ t h. f s t h }

module _ {A B : Type 0} {P : Trace → Type 0} {Q : A → Trace → Type 0} {R : B → Trace → Type 0}
    {E : Error → Trace → Type 0} where
  pub Triple-bind :
      {m : M A} {f : A → M B}
      → Triple P m Q E
      → ((a : A) → Triple (Q a) (f a) R E)
      → Triple P (m >>= f) R E
  unfolding ◌>>=◌
  Triple-bind {m} {f} k tf = record { at = λ t h. Holds-continue (m t) f (k.at t h) tf }

-- An action that keeps a property of the trace, however it ends.
abbrev pub Keeps : {A : Type 0} → (Trace → Type 0) → M A → Type 0
Keeps P m = Triple P m (λ _. P) (λ _. P)

-- The actions that leave an event behind.
module _ {P : Trace → Type 0} {E : Error → Trace → Type 0} (env : Env) where
  pub Triple-run :
      {Q : String → Trace → Type 0} (args : List String) (stdin : Option String)
      → ((s : String) (t : Trace)
          → env.run t args stdin ≡ ok s
          → P t
          → Q s (command args stdin ∷ t))
      → ((s : String) (t : Trace) → P t → E (external s) (command args stdin ∷ t))
      → Triple P (run env args stdin) Q E
  unfolding run
  Triple-run args stdin q f = record {
    at = λ t h. Holds-settle _ _ (env.run t args stdin) (λ s e. q s t e h) (λ s. f s t h);
  }

  pub Triple-fetch :
      {Q : Response → Trace → Type 0} (r : Request)
      → ((s : Response) (t : Trace) → env.fetch t r ≡ ok s → P t → Q s (fetched r ∷ t))
      → ((s : String) (t : Trace) → P t → E (external s) (fetched r ∷ t))
      → Triple P (fetch env r) Q E
  unfolding fetch
  Triple-fetch r q f = record {
    at = λ t h. Holds-settle _ _ (env.fetch t r) (λ s e. q s t e h) (λ s. f s t h);
  }

  pub Triple-read_file :
      {Q : String → Trace → Type 0} (path : String)
      → ((s : String) (t : Trace) → env.read_file t path ≡ ok s → P t → Q s (read_text path ∷ t))
      → ((s : String) (t : Trace) → P t → E (external s) (read_text path ∷ t))
      → Triple P (read_file env path) Q E
  unfolding read_file
  Triple-read_file path q f = record {
    at = λ t h. Holds-settle _ _ (env.read_file t path) (λ s e. q s t e h) (λ s. f s t h);
  }

  pub Triple-write_file :
      {Q : Unit {0} → Trace → Type 0} (path contents : String)
      → ((s : Unit {0}) (t : Trace) → P t → Q s (wrote_text path contents ∷ t))
      → ((s : String) (t : Trace) → P t → E (external s) (wrote_text path contents ∷ t))
      → Triple P (write_file env path contents) Q E
  unfolding write_file
  Triple-write_file path contents q f = record {
    at = λ t h. Holds-settle _ _ (env.write_file t path contents) (λ s e. q s t h) (λ s. f s t h);
  }

  pub Triple-now :
      {Q : ℕ → Trace → Type 0} → ((t : Trace) → P t → Q (env.clock t) t) → Triple P (now env) Q E
  unfolding now
  Triple-now q = record { at = q }

  pub Triple-create_secret :
      {Q : String → Trace → Type 0} (bytes : ℕ) (prefix : String)
      → ((s : String) (t : Trace) → P t → Q s (drew_random bytes ∷ t))
      → Triple P (create_secret env bytes prefix) Q E
  unfolding create_secret
  Triple-create_secret bytes prefix q = record { at = λ t h. q _ t h }

pub Triple-sleep :
    {P : Trace → Type 0} {E : Error → Trace → Type 0} {Q : Unit {0} → Trace → Type 0} (ms : ℕ)
    → ((t : Trace) → P t → Q tt (slept ms ∷ t))
    → Triple P (sleep ms) Q E
unfolding sleep
Triple-sleep ms q = record { at = q }

-- What a triple says of a run whose end is known.
module _ {A : Type 0} {P : Trace → Type 0} {Q : A → Trace → Type 0} {E : Error → Trace → Type 0}
    {m : M A} (k : Triple P m Q E) {t t' : Trace} (h : P t) where
  pub Triple-done : {a : A} → m t ≡ done a t' → Q a t'
  Triple-done e = subst (Holds Q E) e (k.at t h)

  pub Triple-threw : {x : Error} → m t ≡ threw x t' → E x t'
  Triple-threw e = subst (Holds Q E) e (k.at t h)

Holds-final :
    {A : Type 0} (P : Trace → Type 0) (o : Out A) → Holds (λ _. P) (λ _. P) o → P (final o)
Holds-final P (done a t) h = h
Holds-final P (threw e t) h = h

pub Keeps-final :
    {A : Type 0} {P : Trace → Type 0} {m : M A} {t : Trace} → Keeps P m → P t → P (final (m t))
Keeps-final {P} {m} {t} k h = Holds-final P (m t) (k.at t h)

-- An action that leaves one trace, with the run itself in its postcondition.
module _ {A : Type 0} (m : M A) (t w : Trace) where
  abbrev Traced : A → Trace → Type 0
  Traced a u = (u ≡ w) × (m t ≡ done a w)

  Holds-Traced :
      (o : Out A) → m t ≡ o → Holds (λ _ u. u ≡ w) (λ _ u. u ≡ w) o → Holds Traced (λ _ u. u ≡ w) o
  Holds-Traced (done a u) e h = (h, subst (λ x. m t ≡ done a x) h e)
  Holds-Traced (threw x u) e h = h

  pub Triple-traced :
      Triple (λ u. u ≡ t) m (λ _ u. u ≡ w) (λ _ u. u ≡ w)
      → Triple (λ u. u ≡ t) m (λ a u. (u ≡ w) × (m t ≡ done a w)) (λ _ u. u ≡ w)
  Triple-traced k = record {
    at = λ u h.
        subst (λ v. Holds Traced (λ _ x. x ≡ w) (m v)) (sym h)
          (Holds-Traced (m t) refl (k.at t refl));
  }

Holds-itself :
    {A : Type 0} (Q : A → Trace → Type 0) (E : Error → Trace → Type 0) (o p : Out A)
    → p ≡ o
    → Holds Q E o
    → Holds (λ a u. Q a u × (p ≡ done a u)) (λ e u. E e u × (p ≡ threw e u)) o
Holds-itself Q E (done a u) p e h = (h, e)
Holds-itself Q E (threw x u) p e h = (h, e)

-- What a rule says of the runs from one trace, with the run itself, whichever way it ends.
pub Triple-itself :
    {A : Type 0} {Q : A → Trace → Type 0} {E : Error → Trace → Type 0} {m : M A} {t : Trace}
    → Triple (λ u. u ≡ t) m Q E
    → Triple (λ u. u ≡ t) m (λ a u. Q a u × (m t ≡ done a u)) (λ e u. E e u × (m t ≡ threw e u))
Triple-itself {Q} {E} {m} {t} k = record {
  at = λ u h.
      subst (λ v. Holds (λ a x. Q a x × (m t ≡ done a x)) (λ e x. E e x × (m t ≡ threw e x)) (m v))
        (sym h) (Holds-itself Q E (m t) (m t) refl (k.at t refl));
}

Holds-and :
    {A : Type 0} (Q : A → Trace → Type 0) (E : Error → Trace → Type 0) (F : A → Type 0)
    (o p : Out A)
    → p ≡ o
    → ((a : A) (u : Trace) → p ≡ done a u → F a)
    → Holds Q E o
    → Holds (λ a u. Q a u × F a) E o
Holds-and Q E F (done a u) p e f h = (h, f a u e)
Holds-and Q E F (threw x u) p e f h = h

-- With what another theorem says of the runs that return.
pub Triple-and :
    {A : Type 0} {P : Trace → Type 0} {Q : A → Trace → Type 0} {E : Error → Trace → Type 0}
    {F : A → Type 0} {m : M A}
    → ((t : Trace) (a : A) (u : Trace) → m t ≡ done a u → F a)
    → Triple P m Q E
    → Triple P m (λ a u. Q a u × F a) E
Triple-and {Q} {E} {F} {m} f k = record {
  at = λ t h. Holds-and Q E F (m t) (m t) refl (f t) (k.at t h);
}
