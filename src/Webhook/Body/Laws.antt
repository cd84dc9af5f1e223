-- ===== src/Webhook/Body/Laws.antt =====
-- When `readRawBody` settles, and with which bytes.
use mathlib.Core.List.{append_assoc, append-nil}
use openclaw_control_plane.Common.{
  ℕ, ◌+◌, ◌≤◌, Bool, true, false, Option, none, some, List, [], ◌∷◌, ◌++◌, map, length, ltb, ◌≡◌,
  refl, ◌↔◌, ◌≢◌, ◌∙◌, ap, sym, subst, arith, length-append, any, Option-cases, Bool-cases, inl,
  inr, ◌⊎◌,
}
use openclaw_control_plane.Webhook.Host.{Resolved, resolved, misconfigured}
use openclaw_control_plane.Webhook.Body.{
  StreamEvent, chunk, ended, stream_error, timed_out, ReadResult, body, too_large, read_timeout,
  read_error, Reading, concat, on_event, listen, listen_all, read_raw_body,
}

-- The bytes of a stream that ends: its chunks, in order, within the limit.
abbrev pub Carries : ℕ → List StreamEvent → List ℕ → Type 0
Carries max_bytes events bytes =
    (chunks : List (List ℕ)) × (rest : List StreamEvent) × (events
      ≡ map chunk chunks ++ ended ∷ rest)
    × (bytes ≡ concat chunks)
    × (length bytes ≤ max_bytes)

abbrev at : List (List ℕ) → ℕ → Reading
at chunks total = record { chunks = chunks; total = total; settled = none }

listen_all_settled :
    (max_bytes : ℕ) (events : List StreamEvent) (r : Reading) (result : ReadResult)
    → r.settled ≡ some result
    → (listen_all max_bytes events r).settled ≡ some result
unfolding listen_all
listen_all_settled max_bytes [] r result h = h
listen_all_settled max_bytes (event ∷ events) r result h =
    subst (λ s. (listen_all max_bytes events (listen max_bytes event r s)).settled ≡ some result)
      (sym h) (listen_all_settled max_bytes events r result h)

concat-append : (xss yss : List (List ℕ)) → concat (xss ++ yss) ≡ concat xss ++ concat yss
concat-append [] yss = refl
concat-append (xs ∷ xss) yss = rw (concat-append xss yss, append_assoc)

concat-snoc : (xss : List (List ℕ)) (xs : List ℕ) → concat (xss ++ xs ∷ []) ≡ concat xss ++ xs
concat-snoc xss xs = rw (concat-append xss (xs ∷ []), append-nil)

-- What the listeners do at a chunk.
chunk_fits :
    (max_bytes : ℕ) (bytes : List ℕ) (chunks : List (List ℕ)) (total : ℕ)
    → (total + length bytes ≤ max_bytes)
        × (on_event max_bytes (chunk bytes) (at chunks total)
            ≡ at (chunks ++ bytes ∷ []) (total + length bytes))
      ⊎ ((on_event max_bytes (chunk bytes) (at chunks total)).settled ≡ some too_large)
unfolding on_event
chunk_fits max_bytes bytes chunks total = elim (Bool-cases (ltb max_bytes (total + length bytes))) [
  | inl over ↦ inr (rw over)
  | inr fits ↦ inl (ground arith, rw fits)
]

-- The listeners from a promise that has not settled.
listen_all-Carries :
    (max_bytes : ℕ) (events : List StreamEvent) (chunks : List (List ℕ)) (total : ℕ)
    (bytes : List ℕ)
    → total ≡ length (concat chunks)
    → (listen_all max_bytes events (at chunks total)).settled ≡ some (body bytes)
    → total ≤ max_bytes
    → (more : List (List ℕ)) × (rest : List StreamEvent) × (events ≡ map chunk more ++ ended ∷ rest)
      × (bytes ≡ concat chunks ++ concat more)
      × (length bytes ≤ max_bytes)
unfolding listen_all
listen_all-Carries max_bytes [] chunks total bytes counted h small = cc
listen_all-Carries max_bytes (ended ∷ events) chunks total bytes counted h small =
    let e : bytes ≡ concat chunks = cc (
      listen_all_settled max_bytes events (on_event max_bytes ended (at chunks total))
        (body (concat chunks)) refl) in
    ([], events, refl, rw append-nil e, rw e (rw (sym counted) small))
listen_all-Carries max_bytes (stream_error m ∷ events) chunks total bytes counted h small = cc (
    listen_all_settled max_bytes events (on_event max_bytes (stream_error m) (at chunks total))
      (read_error m) refl)
listen_all-Carries max_bytes (timed_out ∷ events) chunks total bytes counted h small = cc (
    listen_all_settled max_bytes events (on_event max_bytes timed_out (at chunks total))
      read_timeout refl)
listen_all-Carries max_bytes (chunk xs ∷ events) chunks total bytes counted h small =
    elim (chunk_fits max_bytes xs chunks total) [
      | inr over ↦ cc (
          listen_all_settled max_bytes events (on_event max_bytes (chunk xs) (at chunks total))
            too_large over)
      | inl (fits, e) ↦
          let (more, rest, split, same, bound) =
            listen_all-Carries max_bytes events (chunks ++ xs ∷ []) (total + length xs) bytes
              (rw (concat-snoc, length-append {0}, counted))
              (subst (λ r. (listen_all max_bytes events r).settled ≡ some (body bytes)) e h) fits in
          (
            xs ∷ more,
            rest,
            ap (λ es. chunk xs ∷ es) split,
            same ∙ rw (concat-snoc, append_assoc),
            bound,
          )
    ]

listen_all_body :
    (max_bytes : ℕ) (more : List (List ℕ)) (rest : List StreamEvent) (chunks : List (List ℕ))
    (total : ℕ)
    → total + length (concat more) ≤ max_bytes
    → (listen_all max_bytes (map chunk more ++ ended ∷ rest) (at chunks total)).settled
      ≡ some (body (concat chunks ++ concat more))
unfolding listen_all
listen_all_body max_bytes [] rest chunks total small =
    listen_all_settled max_bytes rest (on_event max_bytes ended (at chunks total)) _ (rw append-nil)
listen_all_body max_bytes (xs ∷ more) rest chunks total small =
    let counted = length-append xs (concat more) in
    elim (chunk_fits max_bytes xs chunks total) [
      | inl (fits, e) ↦
          subst
            (λ r.
              (listen_all max_bytes (map chunk more ++ ended ∷ rest) r).settled
              ≡ some (body (concat chunks ++ concat (xs ∷ more))))
            (sym e)
            (listen_all_body max_bytes more rest (chunks ++ xs ∷ []) (total + length xs)
                (omega arith)
              ∙ rw (concat-snoc, append_assoc))
      | inr over ↦ absurd (fits_not_over max_bytes xs chunks total (omega arith) over)
    ]
  where
    fits_not_over :
        (max_bytes : ℕ) (xs : List ℕ) (chunks : List (List ℕ)) (total : ℕ)
        → total + length xs ≤ max_bytes
        → (on_event max_bytes (chunk xs) (at chunks total)).settled ≢ some too_large
    fits_not_over max_bytes xs chunks total small over = ground arith

-- With a configured limit, bytes are read as the body just where the stream has not ended before,
-- its events are chunks and then its end, the bytes are the chunks in order, and they are within
-- the limit.
pub read_raw_body-Carries :
    (max_bytes : ℕ) (readable_ended : Bool) (events : List StreamEvent) (bytes : List ℕ)
    → (read_raw_body (resolved max_bytes) readable_ended events ≡ some (body bytes))
      ↔ ((readable_ended ≡ false) × Carries max_bytes events bytes)
unfolding read_raw_body
read_raw_body-Carries max_bytes true events bytes = ((λ h. cc), λ (h, c). cc)
read_raw_body-Carries max_bytes false events bytes = (
  (λ h. (refl, listen_all-Carries max_bytes events [] 0 bytes refl h (omega arith))),
  λ (h, (chunks, rest, split, same, small)).
      let bound : length (concat chunks) ≤ max_bytes = rw same at small in
      rw (split, same) (listen_all_body max_bytes chunks rest [] 0 (omega arith)),
)

-- The events that settle the promise, whatever came before
abbrev pub settles : StreamEvent → Bool
settles (chunk xs) = false
settles _ = true

listen-settles :
    (max_bytes : ℕ) (event : StreamEvent) (r : Reading) (s : Option ReadResult)
    → s ≡ r.settled
    → settles event ≡ true
    → (listen max_bytes event r s).settled ≢ none
unfolding listen
listen-settles max_bytes event r (some x) e h = λ pending. cc
listen-settles max_bytes (chunk xs) r none e h = cc
listen-settles max_bytes ended r none e h = λ pending. cc
listen-settles max_bytes (stream_error m) r none e h = λ pending. cc
listen-settles max_bytes timed_out r none e h = λ pending. cc

listen_all-ne-none :
    (max_bytes : ℕ) (events : List StreamEvent) (r : Reading)
    → r.settled ≢ none
    → (listen_all max_bytes events r).settled ≢ none
listen_all-ne-none max_bytes events r h pending = elim (Option-cases r.settled) [
  | inl e ↦ h e
  | inr (x, e) ↦ cc (listen_all_settled max_bytes events r x e)
]

listen_all-settles :
    (max_bytes : ℕ) (events : List StreamEvent) (r : Reading)
    → any settles events ≡ true
    → (listen_all max_bytes events r).settled ≢ none
unfolding listen_all
listen_all-settles max_bytes [] r h = cc
listen_all-settles max_bytes (event ∷ events) r h = elim (Bool-cases (settles event)) [
  | inl e ↦
      listen_all-ne-none max_bytes events (listen max_bytes event r r.settled)
        (listen-settles max_bytes event r r.settled refl e)
  | inr e ↦ listen_all-settles max_bytes events (listen max_bytes event r r.settled) (rw e at h)
]

-- A stream that ends, fails or is timed out settles the read.
pub read_raw_body-settles :
    (limit : Resolved ℕ) (readable_ended : Bool) (events : List StreamEvent)
    → any settles events ≡ true
    → read_raw_body limit readable_ended events ≢ none
unfolding read_raw_body
read_raw_body-settles (misconfigured e) readable_ended events h = λ pending. cc
read_raw_body-settles (resolved max_bytes) true events h = λ pending. cc
read_raw_body-settles (resolved max_bytes) false events h =
    listen_all-settles max_bytes events (at [] 0) h
