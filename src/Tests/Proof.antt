-- ===== src/Tests/Proof.antt =====
-- Proof verifications of one snapshot.
use openclaw_control_plane.Common.{
  true, false, none, some, [], ◌∷◌, ◌≡◌, refl, ◌↔◌, map, arith, string_eq, nat_eq, option_eq,
  list_eq,
}
use openclaw_control_plane.Common.Text.{codes, trim, includes}
use openclaw_control_plane.Proof.Paths.{
  keep, normalize, normalize_path, is_allowed_start_command, strip_leading, strip_dots,
  strip_trailing, to_slash,
}
use openclaw_control_plane.Proof.Snapshot.{ProofSourceFiles, ProofSnapshot, ProofExpectations}
use openclaw_control_plane.Proof.{
  is_set, source_checks, service_checks, runtime_checks, commit_checks, deployment_checks,
  active_checks, domain_checks, endpoint_checks, verify_openclaw_railway_proof,
  format_proof_verification,
}
use openclaw_control_plane.Cli.Decimal.{print}
use openclaw_control_plane.Proof.Names.{IsName, Spells, normalize_path-Spells}
use openclaw_control_plane.Proof.Facts.{IsProven}
use openclaw_control_plane.Proof.Laws.{verify_openclaw_railway_proof-IsProven}

abbrev files : ProofSourceFiles
files = record {
  dockerfile =
      "ARG OPENCLAW_TEMPLATE_REF=abc\nARG REPO=up/template\nCOPY --from=template-source /template/src ./src\n";
  railway_toml =
      "builder = \"dockerfile\"\nhealthcheckPath = \"/setup/healthz\"\nrequiredMountPath = \"/data\"\n";
  template_lock = record {
    upstream_repo = "up/template";
    upstream_ref = "main";
    pinned_commit = "abc";
  };
}

abbrev snapshot : ProofSnapshot
snapshot = record {
  source_files = files;
  service_source = some (record {
    repo = some "own/plane";
    image = none;
    upstream_url = none;
    template_id = some "t1";
    template_service_id = none;
    template_thread_slug = some "slug";
  });
  service_runtime = some (record {
    builder = some " DOCKERFILE ";
    dockerfile_path = some "/Dockerfile";
    railway_config_file = some ".\\railway.toml";
    root_directory = some "./";
    start_command = none;
    healthcheck_path = some "/setup/healthz";
  });
  latest_deployment = some (record {
    status = "SUCCESS";
    repo = some "own/plane";
    branch = some "main";
    commit_hash = some "c1";
  });
  domains = some (
      record {
        domain = "c.example";
        kind = "service";
        target_port = some 8080;
        sync_status = some "ACTIVE";
      }
      ∷ []);
  endpoints = some (record { setup_health = 200; setup = 401; openclaw = 302 });
}

abbrev expectations : ProofExpectations
expectations = record {
  public_repo = "own/plane";
  branch = "main";
  expected_commit = some "c1";
  target_port = 8080;
}

-- Opening this opens every check.
unfoldable pub proofs : Unit {0}
unfolding string_eq nat_eq option_eq list_eq trim includes normalize normalize_path
    is_allowed_start_command strip_leading strip_dots strip_trailing keep to_slash is_set
    source_checks service_checks runtime_checks commit_checks deployment_checks active_checks
    domain_checks endpoint_checks print verify_openclaw_railway_proof format_proof_verification
proofs = tt

paths :
    (normalize_path (some "\\././/Railway.TOML//") ≡ codes "/railway.toml")
    × (normalize_path (some "./.") ≡ [])
unfolding proofs
paths = (refl, refl)

verified : (verify_openclaw_railway_proof snapshot expectations).ok ≡ true
unfolding proofs
verified = refl

-- Another commit was deployed.
other_commit :
    (verify_openclaw_railway_proof snapshot
      (record expectations { expected_commit = some "c2" })).ok
    ≡ false
unfolding proofs
other_commit = refl

formatted :
    format_proof_verification (record {
      ok = false;
      checks = endpoint_checks (record { setup_health = 200; setup = 404; openclaw = 302 });
    })
    ≡ "PASS live setup healthcheck passes: /setup/healthz returned 200.\nFAIL live setup route exists: /setup returned 404; expected setup HTML, redirect, or Basic auth challenge.\nPASS live OpenClaw route exists: /openclaw returned 302; expected UI HTML, redirect, or Basic auth challenge."
unfolding proofs
formatted = refl

verify_openclaw_railway_proof-IsProven_example :
    ((verify_openclaw_railway_proof snapshot expectations).ok ≡ true)
    ↔ IsProven snapshot expectations
verify_openclaw_railway_proof-IsProven_example =
    verify_openclaw_railway_proof-IsProven snapshot expectations

config_named : IsName (codes "railway.toml")
config_named = record {
  first = b'r';
  rest = codes "ailway.toml";
  begins = refl;
  no_slash = λ e. omega arith;
  no_dot = λ e. omega arith;
  init = codes "railway.tom";
  last = b'l';
  ends = refl;
  no_trail = λ e. omega arith;
}

normalize_path-Spells_example :
    (normalize_path (some ".\\railway.toml") ≡ codes "railway.toml")
    ↔ Spells (codes "railway.toml") (map to_slash (normalize (some ".\\railway.toml")))
normalize_path-Spells_example =
    normalize_path-Spells (some ".\\railway.toml") (codes "railway.toml") config_named
