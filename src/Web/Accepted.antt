-- ===== src/Web/Accepted.antt =====
-- What a request to change the participation does (internal/web/handler.go: `participation`).
use cpa_codex_auto_reset.Prelude.{
  ◌^◌, ◌≤◌, ◌≡◌, ◌≢◌, ◌⊎◌, refl, inl, inr, String, Bool, true, ◌||◌, Option, none, some, List, ltb,
  eqb, length, arith, Bool-cases,
}
use cpa_codex_auto_reset.Prelude.Text.{byte_length}
use cpa_codex_auto_reset.State.{State}
use cpa_codex_auto_reset.State.Participation.{set_participation}
use cpa_codex_auto_reset.State.Store
use cpa_codex_auto_reset.State.Store.{Disk}
use cpa_codex_auto_reset.State.Store.Atomic.{Written, update_atomic}
use cpa_codex_auto_reset.Web.Pages.{
  Site, Response, ParticipationRequest, max_request_body, set_and_list, is_complete, checked,
  participation_page,
}

module _ (site : Site) (d : Disk) where
  -- The body has 1 to 2^20 bytes and decodes to 1 to 1000 references and a flag.
  pub record IsAccepted (raw : String) (refs : List String) (participating : Bool) : Type 0 where
    pub filled : 1 ≤ byte_length raw
    pub fits : byte_length raw ≤ 2 ^ 20
    pub decodes :
        site.decode_participation raw
        ≡ some (record { auth_ids = refs; participating = some participating })
    pub some_refs : 1 ≤ length refs
    pub few_refs : length refs ≤ 1000

  abbrev pub change : List String → Bool → State → Option State
  change refs participating s = some (set_participation refs participating site.now s).0

  -- The file now holds the whole encoding of the changed state.
  abbrev pub Saved : List String → Bool → Disk → Type 0
  Saved refs participating d' = Written site.io (change refs participating) d.target d'.target

  -- What a request that is accepted leads to.
  abbrev pub Applied : List String → Bool → Response × Disk → Type 0
  Applied refs participating r =
      ((r.1.target ≡ d.target) ⊎ Saved refs participating r.1)
      × ((r.0.status_code ≡ 503) ⊎ Saved refs participating r.1)
      × (r.0.status_code ≢ 400)

  set_and_list-Applied :
      (refs : List String) (participating : Bool)
      → Applied refs participating (set_and_list site refs participating d)
  set_and_list-Applied refs participating =
      let a = update_atomic site.io (change refs participating) d in
      elim (Bool-cases site.has_store) [
        | inr bare ↦ rw bare (inl refl, inl refl, omega arith)
        | inl stored ↦ elim (Bool-cases (Store.update site.io (change refs participating) d).done) [
          | inr failed ↦ rw stored (rw failed (a.0, inl refl, omega arith))
          | inl saved ↦ rw stored (rw saved (a.0, inr (a.2 saved), ground arith))
        ]
      ]

  abbrev pub Refused : String → Response × Disk → Type 0
  Refused raw r =
      (r.0.status_code ≡ 400)
      × (r.1 ≡ d)
      × ((refs : List String) (participating : Bool) → ¬ IsAccepted raw refs participating)

  -- What `participation` leads to.
  abbrev pub Outcome : String → Response × Disk → Type 0
  Outcome raw r =
      Refused raw r
      ⊎ ((refs : List String) × (participating : Bool) × IsAccepted raw refs participating
          × Applied refs participating r)

  flagged :
      (raw : String) (refs : List String) (o : Option Bool)
      → let request : ParticipationRequest = record { auth_ids = refs; participating = o } in
        site.decode_participation raw ≡ some request
        → 1 ≤ byte_length raw
        → byte_length raw ≤ 2 ^ 20
        → Outcome raw (checked site (some request) d)
  flagged raw refs none e filled fits = inl (refl, refl, λ refs participating a. cc (e, a.decodes))
  flagged raw refs (some p) e filled fits =
      let request : ParticipationRequest = record { auth_ids = refs; participating = some p } in
      elim (Bool-cases (is_complete site request true)) [
        | inl whole ↦ rw whole (
            inr (
              refs,
              p,
              record {
                filled = filled;
                fits = fits;
                decodes = e;
                some_refs = ground (arith, whole);
                few_refs = ground (arith, whole);
              },
              set_and_list-Applied refs p,
            ))
        | inr partial ↦ rw partial (
            inl (
              refl,
              refl,
              λ refs' p' a. ground (arith, partial, e, a.decodes, a.some_refs, a.few_refs),
            ))
      ]

  checked_lem :
      (raw : String) (o : Option ParticipationRequest)
      → site.decode_participation raw ≡ o
      → 1 ≤ byte_length raw
      → byte_length raw ≤ 2 ^ 20
      → Outcome raw (checked site o d)
  checked_lem raw none e filled fits = inl (refl, refl, λ refs participating a. cc (e, a.decodes))
  checked_lem raw (some r) e filled fits = flagged raw r.auth_ids r.participating e filled fits

  -- A request to change the participation is refused with status 400, and changes nothing, exactly if
  -- its body is empty, has more than 2^20 bytes, or does not decode to 1 to 1000 references and a
  -- flag. Otherwise the state file keeps what it held, or holds the whole encoding of the state with
  -- that participation set; it holds the latter unless the answer has status 503.
  pub participation_page_lem : (raw : String) → Outcome raw (participation_page site raw d)
  unfolding participation_page
  participation_page_lem raw =
      elim (Bool-cases (eqb (byte_length raw) 0 || ltb max_request_body (byte_length raw))) [
        | inl bad ↦ rw bad (inl (refl, refl, λ refs p a. ground (arith, bad, a.filled, a.fits)))
        | inr good ↦ rw good (
            checked_lem raw (site.decode_participation raw) refl (ground (arith, good))
              (ground (arith, good)))
      ]
