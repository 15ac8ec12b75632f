-- ===== src/Codex/Requests/Reads.antt =====
-- What `Usage` and `Credits` send, and their errors (internal/codex/client.go).
use cpa_codex_auto_reset.Prelude.{◌≡◌, ◌⊎◌, String, false, List, [], ◌∷◌, Option, none, some, arith}
use cpa_codex_auto_reset.Prelude.Time.{Time}
use cpa_codex_auto_reset.Codex.{Credentials, Result, ok, err, http, plain}
use cpa_codex_auto_reset.Codex.Http.{do_request}
use cpa_codex_auto_reset.Codex.ReadUsage.{UsageResponse, read_usage}
use cpa_codex_auto_reset.Codex.ReadCredits.{
  CreditItem, CreditResponse, Gathered, nothing_gathered, gather_one, gather, read_credits,
}
use cpa_codex_auto_reset.Codex.Requests.{
  Client, HttpRequest, Service, Exchange, request_of, decoded, exchange, usage, credits,
}

-- Not an error that is marked as ambiguous.
abbrev pub IsPlain : {A : Type 0} → Result A → Type 0
IsPlain (err (http e)) = e.ambiguous ≡ false
IsPlain _ = Unit {0}

after-IsPlain :
    {A B : Type 0} (read : A → Result B)
    → ((a : A) → IsPlain (read a))
    → (r : Result A) → IsPlain r
    → IsPlain (elim r [ ok a ↦ read a | err e ↦ err e ])
after-IsPlain read h (ok a) k = h a
after-IsPlain read h (err (http e)) k = k
after-IsPlain read h (err (plain m)) k = tt

decoded-IsPlain :
    {A B : Type 0} (read : A → Result B)
    → ((a : A) → IsPlain (read a))
    → (x : Exchange A) → IsPlain x.result
    → IsPlain (decoded read x).result
decoded-IsPlain read h x k = after-IsPlain read h x.result k

read_usage-IsPlain : (o : Option UsageResponse) → IsPlain (read_usage o)
unfolding read_usage
read_usage-IsPlain o = ground arith

module _ (sha256_hex : String → String) (parse_date : String → Option Time) (now : Time) where
  gather_one-IsPlain :
      (item : CreditItem) (g : Gathered) → IsPlain (gather_one sha256_hex parse_date now item g)
  unfolding gather_one
  gather_one-IsPlain item g = ground arith

  gather-IsPlain :
      (items : List CreditItem) (g : Gathered) → IsPlain (gather sha256_hex parse_date now items g)
  unfolding gather
  gather-IsPlain [] g = tt
  gather-IsPlain (item ∷ items) g =
      after-IsPlain (gather sha256_hex parse_date now items) (gather-IsPlain items)
        (gather_one sha256_hex parse_date now item g) (gather_one-IsPlain item g)

  read_credits-IsPlain :
      (o : Option CreditResponse) → IsPlain (read_credits sha256_hex parse_date now o)
  unfolding read_credits
  read_credits-IsPlain none = tt
  read_credits-IsPlain (some response) =
      ground (arith, gather-IsPlain response.credits nothing_gathered)

module _ (service : Service) (client : Client) (credentials : Credentials) (now : Time) where
  abbrev read_request : String → HttpRequest
  read_request path = request_of client "GET" path credentials ""

  exchange-sent :
      (path : String)
      → let x = exchange service client credentials now "GET" path "" false in
        ((x.sent ≡ none) ⊎ (x.sent ≡ some (read_request path))) × IsPlain x.result
  unfolding exchange do_request
  exchange-sent path = ground arith

  -- `Usage` and `Credits` send nothing, or one GET request without a body, each to its own path with
  -- the trimmed token and account, and never return an error that is marked as ambiguous.
  pub reads_lem :
      let u = usage service client credentials now in
      let c = credits service client credentials now in
      ((u.sent ≡ none) ⊎ (u.sent ≡ some (read_request "/wham/usage")))
      × ((c.sent ≡ none) ⊎ (c.sent ≡ some (read_request "/wham/rate-limit-reset-credits")))
      × IsPlain u.result
      × IsPlain c.result
  unfolding usage credits
  reads_lem =
      let u = exchange-sent "/wham/usage" in
      let c = exchange-sent "/wham/rate-limit-reset-credits" in
      let asked = λ (path : String). exchange service client credentials now "GET" path "" false in
      let read = λ (raw : String). read_usage (service.decode_usage raw) in
      let listed = λ (raw : String).
        read_credits service.sha256_hex service.parse_date now (service.decode_credits raw) in
      (
        u.0,
        c.0,
        decoded-IsPlain read (λ raw. read_usage-IsPlain (service.decode_usage raw))
            (asked "/wham/usage") u.1,
        decoded-IsPlain listed
            (λ raw.
              read_credits-IsPlain service.sha256_hex service.parse_date now
                (service.decode_credits raw))
            (asked "/wham/rate-limit-reset-credits") c.1,
      )
