-- ===== src/Examples/Pages.antt =====
-- The management pages at concrete values (internal/web/handler.go).
use cpa_codex_auto_reset.Prelude.{[], ◌≡◌, refl, false, some, arith, lookup}
use cpa_codex_auto_reset.Reset.Process.{process_account}
use cpa_codex_auto_reset.Reset.Gate.{spends}
use cpa_codex_auto_reset.Web.{next_allowed_at}
use cpa_codex_auto_reset.Web.NextAllowed.{next_allowed_at_holds}
use cpa_codex_auto_reset.Web.Origin.{Web, Headers}
use cpa_codex_auto_reset.Examples.{item, settings, calm, start, cooling_account, cooling_state}

next_allowed_at_holds_example :
    spends
      (process_account calm settings "manual" item (record start { disk = cooling_state })).1.calls
    ≡ []
unfolding next_allowed_at lookup
next_allowed_at_holds_example =
    next_allowed_at_holds calm settings "manual" item (record start { disk = cooling_state })
      cooling_account refl (omega arith) (omega arith)

abbrev pub web : Web
web = record {
  parse_url = λ _. some (record { scheme = "http"; hostname = "localhost"; port = "8317" });
  to_lower = λ s. s;
  is_loopback_ip = λ _. false;
  under_localhost = λ _. false;
}

abbrev pub headers : Headers
headers = record { sec_fetch_site = ""; origin = "http://localhost:8317"; referer = "" }
