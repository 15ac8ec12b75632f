-- ===== src/Management/ResetQuota.antt =====
-- `NewClient` and `ResetQuota` (internal/management/client.go), at what the network makes of the
-- request. JSON is decoded by the host: `status` is what the body's field decodes to.
use cpa_codex_auto_reset.Prelude.{
  ℕ, ◌≡◌, ◌↔◌, ◌⊎◌, refl, String, ◌==◌, Bool, true, false, not, ◌||◌, Option, none, some, ltb, leb,
  arith, if◌then◌else◌,
}
use cpa_codex_auto_reset.Prelude.Text.{trim_space, is_empty}
use cpa_codex_auto_reset.Management.{ManagementError, http, plain, is_auth_failure}
use cpa_codex_auto_reset.Config.Parse.{trim_slashes}

pub record Client : Type 0 where
  pub base_url : String
  pub key : String

-- `NewClient`
abbrev pub new_client : String → String → Client
new_client base_url key = record {
  base_url = trim_slashes (trim_space base_url);
  key = trim_space key;
}

-- `readable` is whether the body was read and has at most 2^20 bytes; `status` is none where it does
-- not decode.
pub record QuotaReply : Type 0 where
  pub status_code : ℕ
  pub readable : Bool
  pub status : Option String

abbrev confirms : Option String → Bool
confirms none = false
confirms (some s) = s == "ok"

abbrev read_reply : QuotaReply → Option ManagementError
read_reply r =
    if not r.readable
    then some (plain "invalid management response")
    else if ltb r.status_code 200 || leb 300 r.status_code
    then some (http r.status_code)
    else if not (confirms r.status)
    then some (plain "management quota reset was not confirmed")
    else none

abbrev read_network : Option QuotaReply → Option ManagementError
read_network none = some (plain "management request failed")
read_network (some r) = read_reply r

-- `ResetQuota`; none is success.
unfoldable pub reset_quota : Client → String → Option QuotaReply → Option ManagementError
reset_quota c auth_index network =
    if is_empty c.base_url || is_empty c.key
    then some (plain "management client is incomplete")
    else if is_empty (trim_space auth_index)
    then some (plain "auth index is required")
    else read_network network

abbrev pub CanAsk : Client → String → Type 0
CanAsk c auth_index =
    (is_empty c.base_url ≡ false)
    × (is_empty c.key ≡ false)
    × (is_empty (trim_space auth_index) ≡ false)

-- The engine takes an error for a refused key exactly if a readable reply with status 401 or 403 has
-- come to a request that could be made.
pub reset_quota_refused :
    (c : Client) (auth_index : String) (network : Option QuotaReply)
    → ((e : ManagementError) × (reset_quota c auth_index network ≡ some e)
        × (is_auth_failure e ≡ true))
      ↔ (CanAsk c auth_index
          × ((r : QuotaReply) × (network ≡ some r)
              × (r.readable ≡ true)
              × ((r.status_code ≡ 401) ⊎ (r.status_code ≡ 403))))
unfolding reset_quota
reset_quota_refused c auth_index network =
    (λ (e, failed, refused). there network e failed refused, back)
  where
    there :
        (network : Option QuotaReply) (e : ManagementError)
        → reset_quota c auth_index network ≡ some e
        → is_auth_failure e ≡ true
        → CanAsk c auth_index
          × ((r : QuotaReply) × (network ≡ some r)
              × (r.readable ≡ true)
              × ((r.status_code ≡ 401) ⊎ (r.status_code ≡ 403)))
    there none e h k = absurd (ground (arith, h, k))
    there (some r) e h k = (
      (ground (arith, h, k), ground (arith, h, k), ground (arith, h, k)),
      (r, refl, ground (arith, h, k), ground (arith, h, k)),
    )

    back :
        CanAsk c auth_index
          × ((r : QuotaReply) × (network ≡ some r)
              × (r.readable ≡ true)
              × ((r.status_code ≡ 401) ⊎ (r.status_code ≡ 403)))
        → (e : ManagementError) × (reset_quota c auth_index network ≡ some e)
          × (is_auth_failure e ≡ true)
    back (can, (r, come, readable, codes)) = (
      http r.status_code,
      rw come (ground (arith, can.0, can.1, can.2, readable, codes)),
      ground (arith, codes),
    )
