-- ===== src/Codex/Http/RetryAfter.antt =====
-- What the client makes of a `Retry-After` header and of a reply
-- (internal/codex/client.go: `parseRetryAfter`, `do`).
use cpa_codex_auto_reset.Prelude.{
  ℕ, ◌*◌, ◌^◌, ◌≤◌, ◌<◌, ◌≡◌, ◌↔◌, refl, String, Bool, true, false, Option, none, some, arith,
}
use cpa_codex_auto_reset.Prelude.Int.{pos, ltb_ℤ}
use cpa_codex_auto_reset.Prelude.Time.{Time}
use cpa_codex_auto_reset.Prelude.Text.{trim_space, is_empty, byte_length}
use cpa_codex_auto_reset.Codex.{Credentials, ok}
use cpa_codex_auto_reset.Codex.Http.{atoi, parse_retry_after, Reply, complete, do_request}

module _ (parse_time : String → Option Time) where
  -- A `Retry-After` of 1 to 9223372036 seconds is read as exactly that duration.
  pub parse_retry_after_seconds :
      (header : String) (now : Time) (n : ℕ)
      → is_empty (trim_space header) ≡ false
      → atoi (trim_space header) ≡ some (pos n)
      → 0 < n
      → n ≤ 9223372036
      → parse_retry_after parse_time header now ≡ pos (n * 10 ^ 9)
  unfolding parse_retry_after
  parse_retry_after_seconds header now n filled read positive small =
      rw filled (rw read (ground arith))

  -- A `Retry-After` of 9223372037 to 13835058055 seconds is read as a negative duration: the product
  -- with a second wraps around.
  pub parse_retry_after_wraps :
      (header : String) (now : Time) (n : ℕ)
      → is_empty (trim_space header) ≡ false
      → atoi (trim_space header) ≡ some (pos n)
      → 9223372037 ≤ n
      → n ≤ 13835058055
      → ltb_ℤ (parse_retry_after parse_time header now) (pos 0) ≡ true
  unfolding parse_retry_after
  parse_retry_after_wraps header now n filled read large small = rw filled (rw read (ground arith))

  -- A body comes back exactly if the credentials are complete and a reply with a status between 200
  -- and 299 and a readable body of at most 2^20 bytes has come.
  pub do_request_ok :
      (credentials : Credentials) (write : Bool) (network : Option Reply) (now : Time)
      (raw : String)
      → (do_request parse_time credentials write network now ≡ ok raw) ↔ (
          (r : Reply) × (network ≡ some r)
          × (complete credentials ≡ true)
          × (r.body ≡ some raw)
          × (byte_length raw ≤ 2 ^ 20)
          × (200 ≤ r.status_code)
          × (r.status_code < 300))
  unfolding do_request
  do_request_ok credentials write network now raw = (
    there network,
    λ (r, come, whole, readable, fits, low, high).
        rw come (ground (arith, whole, readable, fits, low, high)),
  )
    where
      there :
          (network : Option Reply)
          → do_request parse_time credentials write network now ≡ ok raw
          → (r : Reply) × (network ≡ some r)
            × (complete credentials ≡ true)
            × (r.body ≡ some raw)
            × (byte_length raw ≤ 2 ^ 20)
            × (200 ≤ r.status_code)
            × (r.status_code < 300)
      there none h = absurd (ground (arith, h))
      there (some r) h =
          (r, refl, ground arith, ground arith, ground arith, ground arith, ground arith)
