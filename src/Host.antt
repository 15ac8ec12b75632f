-- ===== src/Host.antt =====
-- The host's callbacks (internal/host/client.go, and `callHost` of main.go), with the JSON around
-- them and the host itself as arguments.
pub mod Asked
use cpa_codex_auto_reset.Prelude.{
  ℕ, String, Bool, true, false, not, ◌&&◌, ◌||◌, Option, none, some, List, [], ◌∷◌, eqb,
  if◌then◌else◌,
}
use cpa_codex_auto_reset.Prelude.Text.{trim_space, is_empty}
use cpa_codex_auto_reset.Account
use cpa_codex_auto_reset.Account.Discovery.{Entry, Credential, Claims, AuthResponse}

-- The two calls that the plugin makes: the method with its payload.
pub data HostCall : Type 0 where
  auth_list : HostCall
  auth_get : String → HostCall

-- What the host's function returns: its code, and the buffer, none where the pointer is nil.
pub record Returned : Type 0 where
  pub code : ℕ
  pub buffer : Option String

-- `pluginruntime.Envelope`, as far as it is read
pub record Envelope : Type 0 where
  pub ok : Bool
  pub result : String

-- `pluginapi.HostAuthGetResponse`; `json` is the credential file.
pub record AuthGetResponse : Type 0 where
  pub name : String
  pub json : String

-- `host_api` is none where no host or no function is stored.
pub record Boundary : Type 0 where
  pub encode : HostCall → Option String
  pub allocates : Bool
  pub host_api : Option (HostCall → String → Returned)
  pub decode_envelope : String → Option Envelope
  pub decode_list : String → Option (List Entry)
  pub decode_get : String → Option AuthGetResponse
  pub valid_json : String → Bool
  pub decode_credential : String → Option Credential
  pub decode_claims : String → Option Claims
  pub equal_fold : String → String → Bool
  pub sha256_hex : String → String

-- The result of a call, or its error, and how often the host's buffer was freed.
pub data Delivery : Type 0 where
  delivered undelivered : String → Delivery

pub record Exchanged : Type 0 where
  pub delivery : Delivery
  pub buffer : Option String
  pub frees : ℕ

pub data Fetched {ℓ} (A : Type ℓ) : Type ℓ where
  fetched : A → Fetched A
  no_fetch : String → Fetched A

abbrev pub content : Option String → String
content none = ""
content (some raw) = raw

abbrev freed : Option String → ℕ
freed none = 0
freed (some _) = 1

module _ (b : Boundary) where
  -- `call_host_api`
  abbrev pub call_host_api : HostCall → String → Returned
  call_host_api c payload = elim b.host_api [
    | none ↦ record { code = 1; buffer = none }
    | some f ↦ f c payload
  ]

  abbrev read_envelope : Option Envelope → Delivery
  read_envelope none = undelivered "decode host callback envelope"
  read_envelope (some e) =
      if not e.ok then undelivered "host callback rejected request" else delivered e.result

  abbrev read_returned : Returned → Exchanged
  read_returned r = record {
    delivery =
        if not (eqb r.code 0)
        then undelivered "host callback failed"
        else read_envelope (b.decode_envelope (content r.buffer));
    buffer = r.buffer;
    frees = freed r.buffer;
  }

  abbrev pub uncalled : String → Exchanged
  uncalled message = record { delivery = undelivered message; buffer = none; frees = 0 }

  abbrev call_encoded : HostCall → Option String → Exchanged
  call_encoded c none = uncalled "marshal host callback payload"
  call_encoded c (some payload) =
      if not (is_empty payload) && not b.allocates
      then uncalled "allocate host callback payload"
      else read_returned (call_host_api c payload)

  -- `callHost`
  unfoldable pub call_host : HostCall → Exchanged
  call_host c = call_encoded c (b.encode c)

-- `host.Client`; its `call` is nil where there is no host.
abbrev pub Client : Type 0
Client = Option (HostCall → Delivery)

module _ (b : Boundary) where
  -- `NewClient` over `callHost`
  abbrev pub new_client : Client
  new_client = some λ c. (call_host b c).delivery

  abbrev listed : Delivery → Fetched (List Entry)
  listed (undelivered e) = no_fetch e
  listed (delivered raw) = elim (b.decode_list raw) [
    | none ↦ no_fetch "decode host auth list response"
    | some entries ↦ fetched entries
  ]

  -- `ListAuthFiles`
  unfoldable pub list_auth_files : Client → Fetched (List Entry)
  list_auth_files none = no_fetch "host callback is unavailable"
  list_auth_files (some call) = listed (call auth_list)

  abbrev checked : Option AuthGetResponse → Fetched AuthGetResponse
  checked none = no_fetch "decode host auth response"
  checked (some r) =
      if is_empty r.json || not (b.valid_json r.json)
      then no_fetch "host auth JSON is invalid"
      else fetched r

  abbrev gotten : Delivery → Fetched AuthGetResponse
  gotten (undelivered e) = no_fetch e
  gotten (delivered raw) = checked (b.decode_get raw)

  -- `GetAuth`
  unfoldable pub get_auth : Client → String → Fetched AuthGetResponse
  get_auth none auth_index = no_fetch "host callback is unavailable"
  get_auth (some call) auth_index =
      if is_empty (trim_space auth_index)
      then no_fetch "auth index is required"
      else gotten (call (auth_get (trim_space auth_index)))

  abbrev as_list : Fetched (List Entry) → Option (List Entry)
  as_list (fetched entries) = some entries
  as_list (no_fetch _) = none

  abbrev as_response : Fetched AuthGetResponse → Option AuthResponse
  as_response (fetched r) = some (record { name = r.name; credential = b.decode_credential r.json })
  as_response (no_fetch _) = none

  -- The host as the discovery of accounts sees it.
  abbrev pub discovery_host : Client → Account.Discovery.Host
  discovery_host client = record {
    list_auth_files = as_list (list_auth_files client);
    get_auth = λ auth_index. as_response (get_auth client auth_index);
    decode_claims = b.decode_claims;
    equal_fold = b.equal_fold;
    sha256_hex = b.sha256_hex;
  }
