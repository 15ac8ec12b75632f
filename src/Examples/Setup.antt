-- ===== src/Examples/Setup.antt =====
-- Configuration and discovery at concrete values (internal/config, internal/account,
-- internal/management).
use cpa_codex_auto_reset.Management.ResetQuota.{Client, QuotaReply}
use cpa_codex_auto_reset.Prelude.{
  ◌≡◌, ◌↔◌, refl, String, ◌==◌, true, false, none, some, List, [], ◌∷◌, All, lookup, arith,
}
use cpa_codex_auto_reset.Prelude.Sort.{Sorted, Pairwise}
use cpa_codex_auto_reset.Config.Parse.{Platform, empty_document, validate, parse, valid}
use cpa_codex_auto_reset.Config.Valid.{
  InRange, IsValid, Passes, validate_iff_IsValid, parse-IsValid,
}
use cpa_codex_auto_reset.Account.{Account}
use cpa_codex_auto_reset.Account.Discovery.{
  Host, Entry, candidate_of, collect, discover, found, by_ref,
}
use cpa_codex_auto_reset.Account.Discovery.Best.{AtLeast, collect_keeps_best}
use cpa_codex_auto_reset.Account.Discovery.Distinct.{OtherId, IsNamed, discover-distinct}
use cpa_codex_auto_reset.Examples.{settings}

abbrev pub platform : Platform
platform = record {
  read_yaml = λ _. empty_document;
  parse_url = λ _. some (record {
    scheme = "http";
    host = "127.0.0.1:8317";
    hostname = "127.0.0.1";
    user = false;
    fragment = "";
  });
  clean_path = λ p. p;
  loopback_ip = λ _. some true;
  equal_fold = λ a b. a == b;
  has_suffix_of_lower = λ _ _. false;
  to_lower = λ k. k;
  getenv = λ _. "key";
  default_state_dir = "/tmp/plugin";
}

parse-IsValid_example : Passes (IsValid platform) (parse platform "")
parse-IsValid_example = parse-IsValid platform ""

validate_iff_IsValid_example :
    Passes (IsValid platform) (validate platform settings)
    × ((validate platform settings ≡ valid settings) ↔ IsValid platform settings)
validate_iff_IsValid_example = validate_iff_IsValid platform settings

settings-InRange : InRange settings
settings-InRange = record {
  scan_low = omega arith;
  scan_high = omega arith;
  cooldown_low = omega arith;
  cooldown_high = omega arith;
  backoff_low = omega arith;
  backoff_high = omega arith;
  threshold_low = omega arith;
  threshold_high = omega arith;
  directory = refl;
}

abbrev entry : String → Entry
entry index = record {
  id = "";
  auth_index = index;
  name = "a.json";
  type = "codex";
  provider = "";
  label = "";
  disabled = false;
  unavailable = false;
  runtime_only = false;
  source = "file";
  path = "/auth/a.json";
  email = "";
}

abbrev entries : List Entry
entries = entry "2" ∷ entry "1" ∷ []

abbrev host : Host
host = record {
  list_auth_files = some entries;
  get_auth = λ _. some (record {
    name = "a.json";
    credential = some (record {
      type = "codex";
      account_id = "user-1";
      access_token = "token";
      id_token = "";
      email = "";
      disabled = false;
    });
  });
  decode_claims = λ _. none;
  equal_fold = λ a b. a == b;
  sha256_hex = λ s. s;
}

collect_keeps_best_example :
    All
      (λ e.
        (c : Account)
        → candidate_of host e ≡ some c
        → AtLeast c (lookup c.account_id (collect host entries [])))
      entries
collect_keeps_best_example = collect_keeps_best host entries []

discover-distinct_example :
    Sorted by_ref (found host entries)
    × Pairwise OtherId (found host entries)
    × All (IsNamed host) (found host entries)
unfolding discover
discover-distinct_example = discover-distinct host (found host entries) refl

abbrev client : Client
client = record { base_url = "http://127.0.0.1:8317"; key = "key" }

abbrev confirmed : QuotaReply
confirmed = record { status_code = 200; readable = true; status = some "ok" }
