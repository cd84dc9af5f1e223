-- ===== src/Webhook/Body.antt =====
-- `readRawBody`: the listeners on a request stream, as a machine over the events that reach it.
pub mod Laws
use openclaw_control_plane.Common.{
  ℕ, ◌+◌, String, Bool, Option, none, some, List, [], ◌∷◌, ◌++◌, length, ltb, if◌then◌else◌,
}
use openclaw_control_plane.Webhook.Host.{ConfigError, Resolved, resolved, misconfigured}

pub data StreamEvent : Type 0 where
  chunk : List ℕ → StreamEvent
  ended : StreamEvent
  stream_error : String → StreamEvent
  -- the timer that `readRawBody` sets
  timed_out : StreamEvent

-- How the promise settles: with the body, or with the code of an error.
pub data ReadResult : Type 0 where
  body : List ℕ → ReadResult
  too_large : ReadResult
  read_timeout : ReadResult
  already_ended : ReadResult
  read_error : String → ReadResult
  max_bytes_error : ConfigError → ReadResult

pub record Reading : Type 0 where
  pub chunks : List (List ℕ)
  pub total : ℕ
  pub settled : Option ReadResult

-- `Buffer.concat`
abbrev pub concat : List (List ℕ) → List ℕ
concat [] = []
concat (xs ∷ xss) = xs ++ concat xss

-- `settle`, which takes the listeners away: what comes after it has no effect.
abbrev settle : ReadResult → Reading → Reading
settle result r = record r { settled = some result }

-- `onData`, with the bytes counted before the test
on_data : ℕ → List ℕ → Reading → Reading
on_data max_bytes bytes r =
    let total = r.total + length bytes in
    if ltb max_bytes total
    then settle too_large (record r { total = total })
    else record r { total = total; chunks = r.chunks ++ (bytes ∷ []) }

on_event : ℕ → StreamEvent → Reading → Reading
unfolding on_data
on_event max_bytes (chunk bytes) r = on_data max_bytes bytes r
on_event max_bytes ended r = settle (body (concat r.chunks)) r
on_event max_bytes (stream_error message) r = settle (read_error message) r
on_event max_bytes timed_out r = settle read_timeout r

-- An event after the promise has settled finds no listener.
listen : ℕ → StreamEvent → Reading → Option ReadResult → Reading
unfolding on_event
listen max_bytes event r none = on_event max_bytes event r
listen max_bytes event r (some result) = r

listen_all : ℕ → List StreamEvent → Reading → Reading
unfolding listen
listen_all max_bytes [] r = r
listen_all max_bytes (event ∷ events) r =
    listen_all max_bytes events (listen max_bytes event r r.settled)

-- `readRawBody`: `none` where no event has settled the promise.
read_stream : ℕ → Bool → List StreamEvent → Option ReadResult
unfolding listen_all
read_stream max_bytes readable_ended events =
    if readable_ended
    then some already_ended
    else (listen_all max_bytes events (record { chunks = []; total = 0; settled = none })).settled

unfoldable pub read_raw_body : Resolved ℕ → Bool → List StreamEvent → Option ReadResult
unfolding read_stream
read_raw_body (misconfigured e) readable_ended events = some (max_bytes_error e)
read_raw_body (resolved max_bytes) readable_ended events =
    read_stream max_bytes readable_ended events
