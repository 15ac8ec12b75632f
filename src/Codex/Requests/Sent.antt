-- ===== src/Codex/Requests/Sent.antt =====
-- Which requests the Codex client sends, and what its answers say of them
-- (internal/codex/client.go).
use cpa_codex_auto_reset.Prelude.{
  ◌≤◌, ◌^◌, ◌<◌, ◌≡◌, ◌⊎◌, refl, String, if◌then◌else◌, true, Option, none, some, arith,
}
use cpa_codex_auto_reset.Prelude.Time.{Time}
use cpa_codex_auto_reset.Prelude.Text.{concat, is_empty, trim_space, byte_length}
use cpa_codex_auto_reset.Codex.{Credentials, ConsumeResult, Result, ok, err, http, plain}
use cpa_codex_auto_reset.Codex.Http.{Reply, do_request}
use cpa_codex_auto_reset.Codex.ReadConsume.{ConsumeResponse, read_consume, read_code}
use cpa_codex_auto_reset.Codex.Http.RetryAfter.{do_request_ok}
use cpa_codex_auto_reset.Codex.Requests.{Client, HttpRequest, Service, exchange, consume}

module _ (service : Service) (client : Client) (credentials : Credentials) (now : Time) where
  -- The request that `Consume` is to send.
  abbrev pub consume_request : String → String → HttpRequest
  consume_request credit_id idempotency_key =
      let body = service.encode_consume (trim_space idempotency_key) (trim_space credit_id) in
      record {
        method = "POST";
        url = concat client.base_url "/wham/rate-limit-reset-credits/consume";
        authorization = concat "Bearer " (trim_space credentials.access_token);
        account_id = trim_space credentials.account_id;
        accept = "application/json";
        user_agent = client.user_agent;
        content_type = if is_empty body then "" else "application/json";
        body = body;
      }

  -- A result that shows that the credit is spent, or that it may be.
  abbrev pub MayHaveSpent : Result ConsumeResult → Type 0
  MayHaveSpent (ok _) = Unit {0}
  MayHaveSpent (err (http e)) = e.ambiguous ≡ true
  MayHaveSpent (err (plain _)) = ⊥

  -- The network answered the request with a readable 2xx reply that says `r`.
  abbrev pub Answered : HttpRequest → ConsumeResult → Type 0
  Answered request r =
      (reply : Reply) × (raw : String) × (said : ConsumeResponse) × (service.network request
        ≡ some reply)
      × (200 ≤ reply.status_code)
      × (reply.status_code < 300)
      × (reply.body ≡ some raw)
      × (byte_length raw ≤ 2 ^ 20)
      × (service.decode_consume raw ≡ some said)
      × (read_code said.code ≡ some r.code)

  sent_as_expected :
      (credit_id idempotency_key : String)
      → let x = consume service client credentials now credit_id idempotency_key in
        ((x.sent ≡ none) ⊎ (x.sent ≡ some (consume_request credit_id idempotency_key)))
        × (MayHaveSpent x.result → x.sent ≡ some (consume_request credit_id idempotency_key))
  unfolding consume exchange
  sent_as_expected credit_id idempotency_key = ground arith

  read_consume_ok :
      (o : Option ConsumeResponse) (r : ConsumeResult)
      → read_consume o ≡ ok r
      → (said : ConsumeResponse) × (o ≡ some said) × (read_code said.code ≡ some r.code)
  unfolding read_consume
  read_consume_ok none r h = cc
  read_consume_ok (some said) r h = (said, refl, ground arith)

  abbrev read : Result String → Result ConsumeResult
  read (ok raw) = read_consume (service.decode_consume raw)
  read (err e) = err e

  read_ok :
      (answer : Result String) (r : ConsumeResult)
      → read answer ≡ ok r
      → (raw : String) × (answer ≡ ok raw) × (read_consume (service.decode_consume raw) ≡ ok r)
  read_ok (ok raw) r h = (raw, refl, h)
  read_ok (err e) r h = cc

  result_ok :
      (credit_id idempotency_key : String) (r : ConsumeResult)
      → (consume service client credentials now credit_id idempotency_key).result ≡ ok r
      → let request = consume_request credit_id idempotency_key in
        read (do_request service.parse_time credentials true (service.network request) now) ≡ ok r
  unfolding consume exchange
  result_ok credit_id idempotency_key r h = ground arith

  answered :
      (credit_id idempotency_key : String) (r : ConsumeResult)
      → (consume service client credentials now credit_id idempotency_key).result ≡ ok r
      → Answered (consume_request credit_id idempotency_key) r
  answered credit_id idempotency_key r h =
      let request = consume_request credit_id idempotency_key in
      let (raw, came, good) = read_ok _ r (result_ok credit_id idempotency_key r h) in
      let (reply, network, _, body, fits, low, high) =
        (do_request_ok service.parse_time credentials true (service.network request) now raw).0
          came in
      let (said, decodes, code) = read_consume_ok (service.decode_consume raw) r good in
      (reply, raw, said, network, low, high, body, fits, decodes, code)

  -- `Consume` sends nothing, or the one POST request that carries the trimmed credit, key, token and
  -- account. It returns a result only if that request was answered by a reply with a status
  -- between 200 and 299 and a readable body of at most 1 MiB that decodes to that code; and where nothing was sent, the error is
  -- neither a result nor marked as ambiguous.
  pub consume_lem :
      (credit_id idempotency_key : String)
      → let x = consume service client credentials now credit_id idempotency_key in
        let request = consume_request credit_id idempotency_key in
        ((x.sent ≡ none) ⊎ (x.sent ≡ some request))
        × (MayHaveSpent x.result → x.sent ≡ some request)
        × ((r : ConsumeResult) → x.result ≡ ok r → Answered request r)
  consume_lem credit_id idempotency_key =
      let (once, spent) = sent_as_expected credit_id idempotency_key in
      (once, spent, answered credit_id idempotency_key)
