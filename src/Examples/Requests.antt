-- ===== src/Examples/Requests.antt =====
-- Requests to and from the plugin at concrete values (internal/codex/client.go,
-- internal/host/client.go, internal/web/handler.go).
use cpa_codex_auto_reset.Prelude.{
  ◌≡◌, ◌⊎◌, ◌↔◌, refl, String, true, false, none, some, [], ◌∷◌, map, All,
}
use mathlib.Core.List.{reverse}
use cpa_codex_auto_reset.Prelude.Int.{pos}
use cpa_codex_auto_reset.Prelude.Text.{concat, trim_space, is_empty, has_prefix}
use cpa_codex_auto_reset.Codex.{ConsumeResult, Credentials, ok}
use cpa_codex_auto_reset.Codex.Requests
use cpa_codex_auto_reset.Codex.Requests.{Service, consume}
use cpa_codex_auto_reset.Codex.Requests.Sent.{consume_request, MayHaveSpent, Answered, consume_lem}
use cpa_codex_auto_reset.Host
use cpa_codex_auto_reset.Host.{Boundary, auth_get, fetched, get_auth}
use cpa_codex_auto_reset.Host.Asked.{Delivered, Holds, get_auth_iff}
use cpa_codex_auto_reset.State.{LogEntry, new_state, no_entry, no_summary}
use cpa_codex_auto_reset.State.Store.{Io, Disk, decoded}
use cpa_codex_auto_reset.Web.Newest.{newest_first, newest_first-eq-reverse}
use cpa_codex_auto_reset.Web.Pages.{Site, resource_prefix, participation_page}
use cpa_codex_auto_reset.Web.Accepted.{Outcome, participation_page_lem}
use cpa_codex_auto_reset.Web.Routes.{Request, registration, from_same_origin, route}
use cpa_codex_auto_reset.Web.Routes.Guarded.{path_of, Writes, route_guarded}
use cpa_codex_auto_reset.Web.Routes.Served.{is_registered, IsAnswered, resources, route_404_iff}
use cpa_codex_auto_reset.Plugin.Runtime.{Runtime}
use cpa_codex_auto_reset.Plugin.Handle.{
  Outside, management_handle, serve, unconfigured_changes_nothing,
}
use cpa_codex_auto_reset.Examples.{noon, settings}
use cpa_codex_auto_reset.Examples.Pages.{web, headers}

abbrev service : Service
service = record {
  creates = λ _ _. true;
  network = λ _. some (record { status_code = 200; retry_after = ""; body = some "{}" });
  parse_time = λ _. none;
  parse_date = λ _. none;
  sha256_hex = λ s. s;
  decode_usage = λ _. none;
  decode_credits = λ _. none;
  decode_consume = λ _. some (record { code = "reset"; windows_reset = pos 1 });
  encode_consume = λ key credit. concat key credit;
}

abbrev client : Requests.Client
client = record { base_url = "https://chatgpt.com/backend-api"; user_agent = "codex-cli" }

abbrev credentials : Credentials
credentials = record { access_token = "token"; account_id = "id" }

consume_lem_example :
    let x = consume service client credentials noon "credit" "key" in
    let request = consume_request service client credentials noon "credit" "key" in
    ((x.sent ≡ none) ⊎ (x.sent ≡ some request))
    × (MayHaveSpent service client credentials noon x.result → x.sent ≡ some request)
    × ((r : ConsumeResult) → x.result ≡ ok r → Answered service client credentials noon request r)
consume_lem_example = consume_lem service client credentials noon "credit" "key"

abbrev boundary : Boundary
boundary = record {
  encode = λ _. some "{}";
  allocates = true;
  host_api = some (λ _ _. record { code = 0; buffer = some "{}" });
  decode_envelope = λ _. some (record { ok = true; result = "{}" });
  decode_list = λ _. some [];
  decode_get = λ _. some (record { name = "a.json"; json = "{}" });
  valid_json = λ _. true;
  decode_credential = λ _. none;
  decode_claims = λ _. none;
  equal_fold = λ _ _. true;
  sha256_hex = λ s. s;
}

get_auth_iff_example :
    (get_auth boundary (Host.new_client boundary) "1"
      ≡ fetched (record { name = "a.json"; json = "{}" }))
    ↔ ((is_empty (trim_space "1") ≡ false)
        × ((raw : String) × Delivered boundary (auth_get (trim_space "1")) raw
            × Holds boundary raw (record { name = "a.json"; json = "{}" })))
get_auth_iff_example = get_auth_iff boundary "1" (record { name = "a.json"; json = "{}" })

abbrev first_entry : LogEntry
first_entry = record no_entry { event = "scan_started" }

newest_first-eq-reverse_example :
    newest_first (first_entry ∷ no_entry ∷ []) ≡ reverse (first_entry ∷ no_entry ∷ [])
newest_first-eq-reverse_example = newest_first-eq-reverse (first_entry ∷ no_entry ∷ [])

abbrev io : Io
io = record { fails = λ _. false; decode = λ _. decoded new_state; encode = λ _. some "{}" }

abbrev empty_disk : Disk
empty_disk = record { target = none; temp = none }

abbrev site : Site
site = record {
  web = web;
  config = settings;
  has_store = true;
  io = io;
  io_again = io;
  scan = λ d. (record { summary = no_summary; error = none }, d);
  now = noon;
  encodable = λ _. true;
  decode_participation = λ _. some (record { auth_ids = "acct" ∷ []; participating = some true });
  decode_empty = λ _. true;
  asset = λ _. some "<html>";
}

participation_page_lem_example :
    Outcome site empty_disk "{}" (participation_page site "{}" empty_disk)
participation_page_lem_example = participation_page_lem site empty_disk "{}"

abbrev put_participation : Request
put_participation = record {
  method = "PUT";
  path = "/v0/management/plugins/cpa-codex-auto-reset/accounts/participation";
  headers = headers;
  body = "{}";
}

route_guarded_example :
    ((route site put_participation empty_disk).1 ≡ empty_disk)
    ⊎ ((from_same_origin site put_participation ≡ true)
        × Writes site put_participation empty_disk (route site put_participation empty_disk))
route_guarded_example = route_guarded site put_participation empty_disk

route_404_iff_example :
    let r = route site put_participation empty_disk in
    (has_prefix (trim_space put_participation.path) resource_prefix ≡ false
      → (r.0.status_code ≡ 404)
        ↔ (is_registered registration.routes "PUT" (path_of put_participation) ≡ false))
    × (map (concat resource_prefix) registration.resources ≡ map (λ x. x.path) resources)
    × All
        (λ x.
          trim_space put_participation.path ≡ x.path
          → IsAnswered (site.asset x.file) x.content_type r.0)
        resources
route_404_iff_example = route_404_iff site put_participation empty_disk

abbrev outside : Outside
outside = record {
  web = web;
  io = io;
  io_again = io;
  scan_of = λ _ d. (record { summary = no_summary; error = none }, d);
  now = noon;
  encodable = λ _. true;
  decode_request = λ _. some put_participation;
  decode_participation = λ _. some (record { auth_ids = "acct" ∷ []; participating = some true });
  decode_empty = λ _. true;
  asset = λ _. none;
}

abbrev unconfigured : Runtime
unconfigured = record {
  host_caller = true;
  closed = false;
  configured = false;
  config = settings;
  engine = none;
  store = none;
}

unconfigured_changes_nothing_example :
    (serve outside unconfigured management_handle "{}" empty_disk).1 ≡ empty_disk
unconfigured_changes_nothing_example =
    unconfigured_changes_nothing outside unconfigured management_handle "{}" empty_disk refl refl
