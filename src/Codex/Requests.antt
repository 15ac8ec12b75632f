-- ===== src/Codex/Requests.antt =====
-- The Codex client as it is called (internal/codex/client.go: `NewClient`, the request that `do`
-- builds, and `Usage`, `Credits` and `Consume` around it). URLs, JSON and the network are arguments.
pub mod Sent
pub mod Reads
use cpa_codex_auto_reset.Prelude.{
  String, ◌==◌, Bool, true, false, not, ◌&&◌, ◌||◌, Option, none, some, if◌then◌else◌,
}
use cpa_codex_auto_reset.Prelude.Time.{Time}
use cpa_codex_auto_reset.Prelude.Text.{concat, trim_space, is_empty}
use cpa_codex_auto_reset.Config.Parse.{Url, trim_slashes}
use cpa_codex_auto_reset.Codex.{
  Credentials, Usage, CreditList, ConsumeResult, CodexError, Result, ok, err, plain,
}
use cpa_codex_auto_reset.Codex.Http.{Reply, complete, do_request}
use cpa_codex_auto_reset.Codex.ReadUsage.{UsageResponse, read_usage}
use cpa_codex_auto_reset.Codex.ReadCredits.{CreditResponse, read_credits}
use cpa_codex_auto_reset.Codex.ReadConsume.{ConsumeResponse, may_consume, read_consume}

abbrev pub default_base_url : String
default_base_url = "https://chatgpt.com/backend-api"

abbrev pub default_user_agent : String
default_user_agent = "codex-cli"

pub record Client : Type 0 where
  pub base_url : String
  pub user_agent : String

-- The checks of `NewClient` on the parsed URL.
abbrev pub is_base : Option Url → Bool
is_base none = false
is_base (some url) =
    not (is_empty url.host)
    && (url.scheme == "http" || url.scheme == "https")
    && not url.user
    && is_empty url.fragment

abbrev or_default : String → String
or_default url = if is_empty url then default_base_url else url

-- `NewClient`; `parse_url` is `url.Parse`, none an error.
unfoldable pub new_client : (String → Option Url) → String → Option Client
new_client parse_url raw =
    let base_url = or_default (trim_slashes (trim_space raw)) in
    if is_base (parse_url base_url)
    then some (record { base_url = base_url; user_agent = default_user_agent })
    else none

-- `*http.Request`, with the headers that `do` sets; one that is not set is empty.
pub record HttpRequest : Type 0 where
  pub method : String
  pub url : String
  pub authorization : String
  pub account_id : String
  pub accept : String
  pub user_agent : String
  pub content_type : String
  pub body : String

-- What the client does not implement. `creates` is whether `http.NewRequestWithContext` makes a
-- request of a method and a URL.
pub record Service : Type 0 where
  pub creates : String → String → Bool
  pub network : HttpRequest → Option Reply
  pub parse_time : String → Option Time
  pub parse_date : String → Option Time
  pub sha256_hex : String → String
  pub decode_usage : String → Option UsageResponse
  pub decode_credits : String → Option CreditResponse
  pub decode_consume : String → Option ConsumeResponse
  -- the JSON of an idempotency key and a credit's id
  pub encode_consume : String → String → String

-- The request that went out, if one did, and the result.
pub record Exchange (A : Type 0) : Type 0 where
  pub sent : Option HttpRequest
  pub result : Result A

abbrev pub unsent : {A : Type 0} → String → Exchange A
unsent message = record { sent = none; result = err (plain message) }

abbrev pub decoded : {A B : Type 0} → (A → Result B) → Exchange A → Exchange B
decoded read x = record {
  sent = x.sent;
  result = elim x.result [ ok raw ↦ read raw | err e ↦ err e ];
}

abbrev pub request_of : Client → String → String → Credentials → String → HttpRequest
request_of client method path credentials body = record {
  method = method;
  url = concat client.base_url path;
  authorization = concat "Bearer " (trim_space credentials.access_token);
  account_id = trim_space credentials.account_id;
  accept = "application/json";
  user_agent = client.user_agent;
  content_type = if is_empty body then "" else "application/json";
  body = body;
}

module _ (service : Service) (client : Client) (credentials : Credentials) (now : Time) where
  -- `do`
  unfoldable pub exchange : String → String → String → Bool → Exchange String
  exchange method path body write =
      let request = request_of client method path credentials body in
      if not (complete credentials)
      then unsent "Codex credentials are incomplete"
      else if not (service.creates method request.url)
      then unsent "create Codex request"
      else record {
        sent = some request;
        result = do_request service.parse_time credentials write (service.network request) now;
      }

  -- `Usage`
  unfoldable pub usage : Exchange Usage
  usage =
      decoded (λ raw. read_usage (service.decode_usage raw)) (exchange "GET" "/wham/usage" "" false)

  -- `Credits`
  unfoldable pub credits : Exchange CreditList
  credits =
      decoded
        (λ raw. read_credits service.sha256_hex service.parse_date now (service.decode_credits raw))
        (exchange "GET" "/wham/rate-limit-reset-credits" "" false)

  -- `Consume`
  unfoldable pub consume : String → String → Exchange ConsumeResult
  consume credit_id idempotency_key =
      if not (may_consume credit_id idempotency_key)
      then unsent "credit ID and idempotency key are required"
      else decoded (λ raw. read_consume (service.decode_consume raw))
          (exchange "POST" "/wham/rate-limit-reset-credits/consume"
            (service.encode_consume (trim_space idempotency_key) (trim_space credit_id)) true)
