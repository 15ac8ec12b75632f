-- ===== src/Host/Asked.antt =====
-- What the host is asked, and what of its answers comes through (internal/host/client.go, main.go).
use cpa_codex_auto_reset.Prelude.{
  ◌≡◌, ◌⊎◌, ◌↔◌, refl, String, true, false, some, arith, Option-cases, Bool-cases, inl, inr,
}
use cpa_codex_auto_reset.Prelude.Text.{trim_space, is_empty}
use cpa_codex_auto_reset.Host.{
  HostCall, auth_get, Returned, Envelope, AuthGetResponse, Boundary, Delivery, delivered,
  undelivered, fetched, content, call_host, new_client, get_auth,
}

delivery-cases :
    (d : Delivery) → ((raw : String) × (d ≡ delivered raw)) ⊎ ((m : String) × (d ≡ undelivered m))
delivery-cases (delivered raw) = inl (raw, refl)
delivery-cases (undelivered m) = inr (m, refl)

module _ (b : Boundary) where
  -- The host has taken the call and answered it with an accepting envelope around `raw`.
  abbrev pub Delivered : HostCall → String → Type 0
  Delivered c raw =
      (payload : String) × (f : HostCall → String → Returned) × (e : Envelope) × (b.encode c
        ≡ some payload)
      × ((is_empty payload ≡ true) ⊎ (b.allocates ≡ true))
      × (b.host_api ≡ some f)
      × ((f c payload).code ≡ 0)
      × (b.decode_envelope (content (f c payload).buffer) ≡ some e)
      × (e.ok ≡ true)
      × (e.result ≡ raw)

  delivery-Delivered :
      (c : HostCall) (raw : String) → (call_host b c).delivery ≡ delivered raw → Delivered c raw
  unfolding call_host
  delivery-Delivered c raw h = elim (Option-cases (b.encode c)) [
    | inl bad ↦ absurd (ground (arith, bad, h))
    | inr (payload, encodes) ↦ elim (Option-cases b.host_api) [
      | inl alone ↦ absurd (ground (arith, encodes, alone, h))
      | inr (f, api) ↦ elim (Option-cases (b.decode_envelope (content (f c payload).buffer))) [
        | inl bad ↦ absurd (ground (arith, encodes, api, bad, h))
        | inr (e, decodes) ↦ (
          payload,
          f,
          e,
          encodes,
          ground (arith, encodes, api, decodes, h),
          api,
          ground (arith, encodes, api, decodes, h),
          decodes,
          ground (arith, encodes, api, decodes, h),
          ground (arith, encodes, api, decodes, h),
        )
      ]
    ]
  ]

  Delivered-delivery :
      (c : HostCall) (raw : String) → Delivered c raw → (call_host b c).delivery ≡ delivered raw
  unfolding call_host
  Delivered-delivery c raw (payload, f, e, encodes, fits, api, code, decodes, accepts, is) =
      ground (arith, encodes, fits, api, code, decodes, accepts, is)

  -- The credential file that `GetAuth` finds in what the host delivers.
  abbrev pub Holds : String → AuthGetResponse → Type 0
  Holds raw r =
      (b.decode_get raw ≡ some r) × (is_empty r.json ≡ false) × (b.valid_json r.json ≡ true)

  fetched-Holds :
      (auth_index : String) (r : AuthGetResponse)
      → get_auth b (new_client b) auth_index ≡ fetched r
      → (is_empty (trim_space auth_index) ≡ false)
        × ((raw : String) × Delivered (auth_get (trim_space auth_index)) raw × Holds raw r)
  unfolding get_auth
  fetched-Holds auth_index r h = elim (Bool-cases (is_empty (trim_space auth_index))) [
    | inl blank ↦ absurd (ground (arith, blank, h))
    | inr named ↦
        let c = auth_get (trim_space auth_index) in
        elim (delivery-cases (call_host b c).delivery) [
          | inr (m, lost) ↦ absurd (ground (arith, named, lost, h))
          | inl (raw, came) ↦ elim (Option-cases (b.decode_get raw)) [
            | inl bad ↦ absurd (ground (arith, named, came, bad, h))
            | inr (r', reads) ↦ (
              named,
              (
                raw,
                delivery-Delivered c raw came,
                (
                  ground (arith, named, came, reads, h),
                  ground (arith, named, came, reads, h),
                  ground (arith, named, came, reads, h),
                ),
              ),
            )
          ]
        ]
  ]

  -- `GetAuth` through the host's boundary returns a response exactly if the index is not blank and
  -- the host, asked for the trimmed index, returns code 0 and an accepting envelope whose result
  -- decodes to that response, with a credential file that is not empty and is valid JSON.
  pub get_auth_iff :
      (auth_index : String) (r : AuthGetResponse)
      → (get_auth b (new_client b) auth_index ≡ fetched r) ↔ (
          (is_empty (trim_space auth_index) ≡ false)
          × ((raw : String) × Delivered (auth_get (trim_space auth_index)) raw × Holds raw r))
  unfolding get_auth
  get_auth_iff auth_index r = (
    fetched-Holds auth_index r,
    λ (named, (raw, came, (reads, filled, valid))). ground (
      arith,
      named,
      Delivered-delivery (auth_get (trim_space auth_index)) raw came,
      reads,
      filled,
      valid,
    ),
  )
