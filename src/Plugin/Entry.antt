-- ===== src/Plugin/Entry.antt =====
-- The functions that the plugin exports to the host (main.go: `cliproxy_plugin_init`,
-- `cliproxyPluginCall`, `cliproxyPluginShutdown`, `writeResponse`). C memory is reduced to whether a
-- pointer is nil and whether an allocation succeeds.
use cpa_codex_auto_reset.Prelude.{
  ℕ, ◌≤◌, ◌≡◌, String, Bool, true, false, not, ◌||◌, Option, none, some, if◌then◌else◌,
}
use cpa_codex_auto_reset.Prelude.Text.{is_empty}
use cpa_codex_auto_reset.Plugin.Runtime.{Shared, shut}
use cpa_codex_auto_reset.Plugin.Sanitize.{sanitize_error, size, limit}

-- What becomes of the call of `Handle`: bytes, an error with its text, or a panic.
pub data Handled : Type 0 where
  returns errors : String → Handled
  panics : Handled

-- What is written to the host's buffer.
pub data Written : Type 0 where
  raw_response : String → Written
  error_envelope : String → String → Written

-- The code that is returned, and the host's buffer; none is a nil pointer.
pub record Reply : Type 0 where
  pub code : ℕ
  pub response : Option Written

-- What the caller of `cliproxyPluginCall` passes: the method, none if it is nil, and whether the
-- response's pointer is not nil. `allocates` is whether `C.CBytes` returns memory.
pub record Passed : Type 0 where
  pub method : Option String
  pub request : Option String
  pub has_response : Bool
  pub allocates : Bool

-- An error envelope is never empty.
abbrev no_bytes : Written → Bool
no_bytes (raw_response raw) = is_empty raw
no_bytes (error_envelope code message) = false

-- `writeResponse` on a buffer that was cleared
abbrev pub write_response : Passed → Written → Option Written
write_response p w = if not p.has_response || no_bytes w || not p.allocates then none else some w

abbrev raw_request : Option String → String
raw_request none = ""
raw_request (some raw) = raw

abbrev answer : Passed → Handled → Reply
answer p (returns raw) = record { code = 0; response = write_response p (raw_response raw) }
answer p (errors message) = record {
  code = 1;
  response = write_response p (error_envelope "plugin_error" (sanitize_error (some message)));
}
answer p panics = record {
  code = 1;
  response = write_response p (error_envelope "plugin_panic" "plugin boundary panic");
}

abbrev call_method : (String → String → Handled) → Passed → Option String → Reply
call_method handle p none = record {
  code = 1;
  response = write_response p (error_envelope "invalid_method" "method is required");
}
call_method handle p (some method) = answer p (handle method (raw_request p.request))

-- `cliproxyPluginCall`; `handle` is the runtime's `Handle`.
unfoldable pub plugin_call : (String → String → Handled) → Passed → Reply
plugin_call handle p = call_method handle p p.method

-- `cliproxy_plugin_init`; `has_api` is whether the host passed a table to fill.
abbrev pub plugin_init : Bool → Shared → ℕ × Shared
plugin_init has_api s =
    if not has_api
    then (1, s)
    else (0, record s { runtime = record s.runtime { host_caller = true } })

-- `cliproxyPluginShutdown`, as far as the locked section of `Shutdown`
abbrev pub plugin_shutdown : Shared → Shared
plugin_shutdown s = shut s

-- Nothing, or an error envelope whose message has 1 to 240 characters.
abbrev pub IsShortError : Option Written → Type 0
IsShortError none = Unit {0}
IsShortError (some (raw_response raw)) = ⊥
IsShortError (some (error_envelope code message)) = (1 ≤ size message) × (size message ≤ limit)

-- The call was handled, and its bytes are what is written.
abbrev pub Handed : (String → String → Handled) → Passed → Reply → Type 0
Handed handle p r =
    (method : String) × (raw : String) × (p.method ≡ some method)
    × (handle method (raw_request p.request) ≡ returns raw)
    × (r.code ≡ 0)
    × (r.response ≡ write_response p (raw_response raw))

abbrev pub Rejected : Reply → Type 0
Rejected r = (r.code ≡ 1) × IsShortError r.response
