-- ===== src/Tests/RouterTests.antt =====
-- The HTTP server at a concrete request.
use nexus_link.Base.{[], arith, err, none, ok, refl, some, true, ◌≡◌, ◌≢◌}
use nexus_link.Text.{starts_with, strip}
use nexus_link.Fs.{create_dir_all, join, rename, write}
use nexus_link.Process.{elapsed}
use nexus_link.Core.Token.{hash_token, hex_encode, validate_cmd_token_format, verify_token}
use nexus_link.Service.Auth.{bearer_token}
use nexus_link.Service.CmdAuth.{
  Request, contains_key, minutes, next, require_cmd_auth, retain, signature_gate,
}
use nexus_link.Service.Compose.{is_git_repo, put_compose_file}
use nexus_link.Service.Router.{Surroundings, after_cmd_auth, compose_routes, serve}
use nexus_link.Service.Router.Laws.{IsFileRoute, serve-files}
use nexus_link.Tests.AuthTests.{lib, state, write_request}
use nexus_link.Tests.ServiceTests.{git, no_put_faults, valid_yaml}
use nexus_link.Tests.Samples.{crypto, no_files}

abbrev around : Surroundings (Unit {0}) (Unit {0})
around = record {
  crypto = crypto;
  lib = lib;
  state = state;
  version = "0";
  no_lines = tt;
  json_command = λ req. err 422;
  json_put = λ req. ok (record { content = "a: 2"; message = "" });
  query = λ req. err 400;
  yaml_error = valid_yaml;
  git = git;
  faults = no_put_faults;
  snap = record { dir_canonical = none; read_dir = λ p. none };
  read_fault = none;
  compose_up = λ fs. (elapsed, fs);
  is_alphanumeric = λ c. true;
  child = λ args. err "not found";
  unmatched = λ req cache. cache;
}

abbrev put_early : Request
put_early = write_request "early" "n1"

is_written :
    (serve around put_early (minutes 10) (minutes 10) [] no_files).2.file "docker-compose.yaml"
    ≡ some "a: 2"
unfolding serve compose_routes after_cmd_auth put_compose_file create_dir_all write rename join
    is_git_repo require_cmd_auth signature_gate retain contains_key bearer_token starts_with strip
    validate_cmd_token_format verify_token hash_token hex_encode
is_written = refl

is_changed :
    (serve around put_early (minutes 10) (minutes 10) [] no_files).2.file "docker-compose.yaml"
    ≢ no_files.file "docker-compose.yaml"
is_changed e = ground (arith, is_written)

serve-files_example :
    IsFileRoute put_early.path put_early.method
    × ((passed : Request) × ((require_cmd_auth lib crypto state put_early
            (minutes 10)
            (minutes 10)
            []).0
          ≡ next passed))
serve-files_example =
    serve-files around put_early (minutes 10) (minutes 10) [] no_files "docker-compose.yaml"
      is_changed
