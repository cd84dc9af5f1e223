-- ===== src/Tests/Fake.antt =====
-- A simulated platform: one service whose variable holds what was last written to it, and whose
-- deployment is replaced by a redeploy. Its clock counts what was slept.
use openclaw_control_plane.Common.{
  ℕ, ◌+◌, ◌≤◌, String, Bool, false, ◌||◌, none, some, List, [], ◌∷◌, ◌==◌, string_eq, if◌then◌else◌,
  arith,
}
use openclaw_control_plane.Effects.Platform.{Env, Event, command, slept, Trace, Reply, ok, rejected}
use openclaw_control_plane.Json.{null}
use openclaw_control_plane.Railway.Deadline.{IsClock}

abbrev is_redeploy : Event → Bool
is_redeploy (command (name ∷ rest) stdin) = name == "redeploy"
is_redeploy _ = false

abbrev redeployed : Trace → Bool
redeployed [] = false
redeployed (e ∷ t) = is_redeploy e || redeployed t

-- The value that was last written, `old` at first.
abbrev pub held : String → Trace → String
held old [] = old
held old (command args (some value) ∷ t) = value
held old (e ∷ t) = held old t

abbrev answer : String → Trace → List String → Reply String
answer old t (name ∷ verb ∷ rest) =
    if name == "service"
    then ok (if redeployed t then "d2" else "d1")
    else if name == "variable"
    then ok (held old t)
    else ok ""
answer old t _ = ok ""

abbrev slept_so_far : Trace → ℕ
slept_so_far [] = 0
slept_so_far (slept ms ∷ t) = slept_so_far t + ms
slept_so_far (e ∷ t) = slept_so_far t

-- The platform where the variable `name` of the service "client" holds `old`, and where requests
-- are answered with `status`.
abbrev pub fake : (name old : String) (status : ℕ) → Env
fake name old status = record {
  run = λ t args stdin. answer old t args;
  fetch = λ t r. ok (record { status = status; body = none });
  read_file = λ t path. rejected "no such file";
  write_file = λ t path contents. ok tt;
  clock = slept_so_far;
  random = λ t n. "fresh";
  base64 = λ s. s;
  services = λ out. ok (
      record {
        id = "svc";
        name = "client";
        latest_deployment = some (record { id = some out; status = some "SUCCESS" });
      }
      ∷ []);
  domains =
      λ out. ok (record { domain = "c.example"; kind = "service"; target_port = some 8080 } ∷ []);
  updated_domain = λ out. rejected "unused";
  variables = λ out. ok ((name, out) ∷ ("SETUP_PASSWORD", "pw") ∷ []);
  parse_json = λ s. ok null;
  stringify = λ j. "";
  print_number = λ n. "8080";
}

fake_monotone : (t : Trace) (e : Event) → slept_so_far t ≤ slept_so_far (e ∷ t)
fake_monotone t (slept ms) = omega arith
fake_monotone t _ = omega arith

pub fake-IsClock : (name old : String) (status : ℕ) → IsClock (fake name old status)
fake-IsClock name old status = record { monotone = fake_monotone; advances = λ t ms. omega arith }
