-- ===== src/Effects.antt =====
-- What the code does to the world, and the monad of its asynchronous functions.
--
-- The world is an arbitrary oracle: what the Railway CLI, an HTTP server, the file system and the
-- clock answer may depend on all that has happened before, the `Trace`. A function of the code is
-- an action `M A`: it returns or throws, and the trace comes back beside either. `await` is `◌>>=◌`.
pub mod Errors
pub mod Platform
pub mod Triple
pub mod Reads
use openclaw_control_plane.Common.{
  ℕ, String, ◌<>◌, Bool, Option, none, some, List, [], ◌∷◌, ◌≡◌, refl,
}
use openclaw_control_plane.Effects.Errors.{Error, external}
use openclaw_control_plane.Effects.Platform.{
  Event, command, fetched, slept, drew_random, read_text, wrote_text, Trace, Request, Response,
  Reply, ok, rejected, Env,
}

pub data Out (A : Type 0) : Type 0 where
  done : A → Trace → Out A
  threw : Error → Trace → Out A

abbrev pub M : Type 0 → Type 0
M A = Trace → Out A

module _ {A : Type 0} where
  unfoldable pub pure : A → M A
  pure a t = done a t

  unfoldable pub throw : Error → M A
  throw e t = threw e t

  -- The trace after an action.
  abbrev pub final : Out A → Trace
  final (done a t) = t
  final (threw e t) = t

  abbrev pub settle : Reply A → Trace → Out A
  settle (ok a) t = done a t
  settle (rejected message) t = threw (external message) t

  -- A promise that rejects throws at its `await`.
  unfoldable pub await : Reply A → M A
  await reply t = settle reply t

  abbrev pub recover : (Error → M A) → Out A → Out A
  recover handler (done a t) = done a t
  recover handler (threw e t) = handler e t

  -- `try { m } catch (e) { handler(e) }`
  unfoldable pub try_catch : M A → (Error → M A) → M A
  try_catch m handler t = recover handler (m t)

  -- A value that must not be `undefined`.
  unfoldable pub require : Option A → Error → M A
  require none e t = threw e t
  require (some a) e t = done a t

module _ {A B : Type 0} where
  abbrev pub continue : (A → M B) → Out A → Out B
  continue f (done a t) = f a t
  continue f (threw e t) = threw e t

  infixl 10 ◌>>=◌
  unfoldable pub ◌>>=◌ : M A → (A → M B) → M B
  ◌>>=◌ m f t = continue f (m t)

infixl 10 ◌>>◌
abbrev pub ◌>>◌ : {B : Type 0} → M (Unit {0}) → M B → M B
m >> n = m >>= λ _. n

module _ (env : Env) where
  unfoldable pub run : List String → Option String → M String
  run args stdin t = settle (env.run t args stdin) (command args stdin ∷ t)

  unfoldable pub fetch : Request → M Response
  fetch request t = settle (env.fetch t request) (fetched request ∷ t)

  unfoldable pub read_file : String → M String
  read_file path t = settle (env.read_file t path) (read_text path ∷ t)

  unfoldable pub write_file : String → String → M (Unit {0})
  write_file path contents t =
      settle (env.write_file t path contents) (wrote_text path contents ∷ t)

  unfoldable pub now : M ℕ
  now t = done (env.clock t) t

  -- `createSecret`: a prefix before random bytes
  unfoldable pub create_secret : ℕ → String → M String
  create_secret bytes prefix t = done (prefix <> env.random t bytes) (drew_random bytes ∷ t)

unfoldable pub sleep : ℕ → M (Unit {0})
sleep ms t = done tt (slept ms ∷ t)
