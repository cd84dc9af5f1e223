-- ===== src/Effects/Reads.antt =====
-- The events that change nothing outside the process, and traces that grow by such events only.
use openclaw_control_plane.Common.{ℕ, String, Option, none, [], ◌∷◌, ◌≡◌}
use openclaw_control_plane.Effects.{M}
use openclaw_control_plane.Effects.Errors.{
  Error, write_uncertain, changed_unverified, read_back_failed, read_back_differs,
}
use openclaw_control_plane.Effects.Triple.{Triple}
use openclaw_control_plane.Effects.Platform.{
  Event, command, fetched, slept, drew_random, read_text, Trace, get,
}

-- Reading commands of the Railway CLI, GET requests, sleeping, and drawing random bytes.
pub data IsRead : Event → Type 0 where
  service_list : IsRead (command ("service" ∷ "list" ∷ "--json" ∷ []) none)
  domain_list :
      {service : String}
      → IsRead (command ("domain" ∷ "list" ∷ "--service" ∷ service ∷ "--json" ∷ []) none)
  variable_list :
      {service : String}
      → IsRead (command ("variable" ∷ "list" ∷ "--service" ∷ service ∷ "--json" ∷ []) none)
  got :
      {url : String} {authorization : Option String}
      → IsRead
          (fetched (record { method = get; url = url; authorization = authorization; body = none }))
  sleeping : {ms : ℕ} → IsRead (slept ms)
  drawing : {bytes : ℕ} → IsRead (drew_random bytes)
  reading_file : {path : String} → IsRead (read_text path)

-- The trace grew from `t` by events of the kind `K`.
pub data Extends (K : Event → Type 0) (t : Trace) : Trace → Type 0 where
  same : Extends K t t
  more : {e : Event} {u : Trace} → K e → Extends K t u → Extends K t (e ∷ u)

pub Extends-trans :
    {K : Event → Type 0} {s t u : Trace} → Extends K s t → Extends K t u → Extends K s u
Extends-trans h same = h
Extends-trans h (more k g) = more k (Extends-trans h g)

-- A property of traces that survives reading.
pub record IsStable (P : Trace → Type 0) : Type 0 where
  pub read : {e : Event} {t : Trace} → IsRead e → P t → P (e ∷ t)

pub Extends-IsStable : {t : Trace} → IsStable (Extends IsRead t)
Extends-IsStable = record { read = more }

pub IsStable-Extends :
    {P : Trace → Type 0} {t u : Trace} → IsStable P → Extends IsRead t u → P t → P u
IsStable-Extends s same h = h
IsStable-Extends s (more k g) h = s.read k (IsStable-Extends s g h)

-- What an error says of the change that the caller asked for: it was not made, it may have been
-- made, or it was made and is not confirmed.
pub data Standing : Type 0 where
  unchanged uncertain unverified : Standing

abbrev pub standing : Error → Standing
standing (write_uncertain name service cause) = uncertain
standing (changed_unverified name service cause) = unverified
standing (read_back_failed name service cause) = unverified
standing (read_back_differs name service applied) = unverified
standing _ = unchanged

-- An action that keeps a property of the trace, and whose errors say that nothing was changed.
abbrev pub Quiet : {A : Type 0} → (Trace → Type 0) → M A → Type 0
Quiet P m = Triple P m (λ _. P) (λ e t. P t × (standing e ≡ unchanged))
