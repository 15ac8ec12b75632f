-- ===== src/Account/Discovery.antt =====
-- `Discover` (internal/account/discovery.go). The host, base64 and JSON are arguments: what
-- `ListAuthFiles` and `GetAuth` return, and the claims that a token's payload decodes to.
pub mod Best
pub mod Distinct
use cpa_codex_auto_reset.Prelude.{
  ℕ, String, ◌==◌, Bool, true, false, not, ◌&&◌, ◌||◌, Option, none, some, List, [], ◌∷◌, map, Dict,
  lookup, insert, eqb, if◌then◌else◌,
}
use Prim.Native.Char.{code, nul}
use Prim.Native.String
use cpa_codex_auto_reset.Prelude.Text.{concat, is_empty, join, trim_space, text_less, short_hash}
use cpa_codex_auto_reset.Prelude.Sort.{sort_by}
use cpa_codex_auto_reset.Account.{Account}

-- `pluginapi.HostAuthFileEntry`, as far as it is read
pub record Entry : Type 0 where
  pub id : String
  pub auth_index : String
  pub name : String
  pub type : String
  pub provider : String
  pub label : String
  pub disabled : Bool
  pub unavailable : Bool
  pub runtime_only : Bool
  pub source : String
  pub path : String
  pub email : String

pub record Credential : Type 0 where
  pub type : String
  pub account_id : String
  pub access_token : String
  pub id_token : String
  pub email : String
  pub disabled : Bool

-- `credential` is none where the JSON does not decode.
pub record AuthResponse : Type 0 where
  pub name : String
  pub credential : Option Credential

pub record Claims : Type 0 where
  pub email : String
  pub auth_account_id : String
  pub flat_account_id : String
  pub account_id : String

pub record Host : Type 0 where
  pub list_auth_files : Option (List Entry)
  pub get_auth : String → Option AuthResponse
  -- base64 and JSON of a payload
  pub decode_claims : String → Option Claims
  pub equal_fold : String → String → Bool
  pub sha256_hex : String → String

-- `firstNonEmpty`
pub first_non_empty : List String → String
first_non_empty [] = ""
first_non_empty (value ∷ values) =
    let trimmed = trim_space value in
    let rest = first_non_empty values in if is_empty trimmed then rest else trimmed

abbrev on_head : (String → String) → List String → List String
on_head f [] = f "" ∷ []
on_head f (s ∷ ss) = f s ∷ ss

-- `strings.Split(s, ".")`
pub split_dots : String → List String
split_dots String.[] = "" ∷ []
split_dots (String.◌∷◌ c s) =
    let rest = split_dots s in
    if eqb (code c) 46 then "" ∷ rest else on_head (λ t. String.◌∷◌ c t) rest

-- `strings.TrimRight(s, "=")`
pub trim_padding : String → String
trim_padding String.[] = String.[]
trim_padding (String.◌∷◌ c s) =
    let r = trim_padding s in if is_empty r && eqb (code c) 61 then String.[] else String.◌∷◌ c r

-- The payload of a token of three parts.
abbrev payload_of : List String → Option String
payload_of (_ ∷ payload ∷ _ ∷ []) = some (trim_padding payload)
payload_of _ = none

abbrev pub none_known : String × String
none_known = ("", "")

module _ (host : Host) where
  abbrev claims_of : Option String → Option Claims
  claims_of none = none
  claims_of (some payload) = host.decode_claims payload

  -- `oauthIdentity`
  unfoldable pub oauth_identity : List String → String × String
  unfolding first_non_empty split_dots trim_padding
  oauth_identity [] = none_known
  oauth_identity (token ∷ tokens) =
      let rest = oauth_identity tokens in
      elim (claims_of (payload_of (split_dots (trim_space token)))) [
        | none ↦ rest
        | some claims ↦
            let account_id =
              first_non_empty
                (claims.auth_account_id ∷ claims.flat_account_id ∷ claims.account_id ∷ []) in
            if is_empty account_id then rest else (account_id, trim_space claims.email)
      ]

  -- `isCodexFile`
  unfoldable pub is_codex_file : Entry → Bool
  is_codex_file entry =
      let provider = trim_space entry.provider in
      let provider' = if is_empty provider then trim_space entry.type else provider in
      let source = trim_space entry.source in
      if not (host.equal_fold provider' "codex")
      then false
      else if entry.runtime_only
      then false
      else if is_empty source || host.equal_fold source "file"
      then true
      else host.equal_fold source "memory" && not (is_empty (trim_space entry.path))

  -- `stableAuthID`
  unfoldable pub stable_auth_id : Entry → String
  stable_auth_id entry =
      if not (is_empty (trim_space entry.id))
      then trim_space entry.id
      else if not (is_empty (trim_space entry.auth_index))
      then trim_space entry.auth_index
      else short_hash host.sha256_hex "auth"
          (join (entry.name ∷ entry.path ∷ entry.email ∷ []) (String.◌∷◌ nul ""))

  -- The account that an entry and its credential make, none where the loop continues.
  unfoldable pub account_from : Entry → AuthResponse → Credential → Option Account
  unfolding first_non_empty
  account_from entry response credential =
      let token = oauth_identity (credential.id_token ∷ credential.access_token ∷ []) in
      let account_id = first_non_empty (credential.account_id ∷ token.0 ∷ []) in
      if not (host.equal_fold (trim_space credential.type) "codex")
        || is_empty (trim_space credential.access_token)
      then none
      else if is_empty account_id
      then none
      else some (record {
        ref = short_hash host.sha256_hex "account" account_id;
        auth_id = stable_auth_id entry;
        auth_index = trim_space entry.auth_index;
        account_id = account_id;
        access_token = trim_space credential.access_token;
        label =
            first_non_empty
              (entry.label ∷ entry.name ∷ credential.email ∷ token.1 ∷ "Codex 账号" ∷ []);
        email = first_non_empty (credential.email ∷ entry.email ∷ token.1 ∷ []);
        file_name = first_non_empty (response.name ∷ entry.name ∷ []);
        disabled = entry.disabled || entry.unavailable || credential.disabled;
      })

  abbrev from_response : Entry → Option AuthResponse → Option Account
  from_response entry none = none
  from_response entry (some response) = elim response.credential [
    | none ↦ none
    | some credential ↦ account_from entry response credential
  ]

  -- What one round of the loop finds.
  unfoldable pub candidate_of : Entry → Option Account
  candidate_of entry =
      if not (is_codex_file entry) || is_empty (trim_space entry.auth_index)
      then none
      else from_response entry (host.get_auth entry.auth_index)

-- `prefer`
abbrev pub prefer : Account → Account → Bool
prefer candidate current = elim candidate.disabled [
  | true ↦ if current.disabled then text_less candidate.auth_index current.auth_index else false
  | false ↦ if current.disabled then true else text_less candidate.auth_index current.auth_index
]

-- The end of a round: the candidate replaces a worse one of the same account.
abbrev pub keep_better : Account → Dict Account → Dict Account
keep_better candidate accounts = elim (lookup candidate.account_id accounts) [
  | none ↦ insert candidate.account_id candidate accounts
  | some current ↦
      if prefer candidate current then insert candidate.account_id candidate accounts else accounts
]

abbrev with_candidate : Option Account → Dict Account → Dict Account
with_candidate none accounts = accounts
with_candidate (some candidate) accounts = keep_better candidate accounts

-- The loop over the entries.
unfoldable pub collect : Host → List Entry → Dict Account → Dict Account
collect host [] accounts = accounts
collect host (entry ∷ entries) accounts =
    collect host entries (with_candidate (candidate_of host entry) accounts)

abbrev pub by_ref : Account → Account → Bool
by_ref a b = text_less a.ref b.ref

abbrev pub found : Host → List Entry → List Account
found host entries = sort_by by_ref (map (λ (id, a). a) (collect host entries []))

-- `Discover`; none is an error of the host.
unfoldable pub discover : Host → Option (List Account)
discover host = elim host.list_auth_files [ none ↦ none | some entries ↦ some (found host entries) ]
