-- ===== src/Codex/ReadCredits/Order.antt =====
-- What a list of credits that the client returns satisfies (internal/codex/client.go: `Credits`).
use cpa_codex_auto_reset.Prelude.{
  ℕ, ◌≤◌, ◌<◌, ◌≡◌, ◌≢◌, sym, String, ◌==◌, true, false, Option, none, some, List, [], ◌∷◌, All,
  append-All, map-All, contains, length, eqb, length-append, ap, arith, eq_iff, Bool-cases,
  Option-cases, inl, inr,
}
use cpa_codex_auto_reset.Prelude.Int.{ℤ, pos, negsuc}
use cpa_codex_auto_reset.Prelude.Time.{Time, after}
use cpa_codex_auto_reset.Prelude.Text.{trim_space, text_less_asym, short_hash}
use cpa_codex_auto_reset.Prelude.Sort.{
  Sorted, sort_by-Sorted, sort_by-All, sort_by-length, Pairwise, sort_by-Pairwise, append-Pairwise,
}
use cpa_codex_auto_reset.Codex.{Credit, CreditList, Result, ok, err, plain, Succeeds}
use cpa_codex_auto_reset.Codex.ReadCredits.{
  CreditItem, CreditResponse, Gathered, add_credit, add_dated, nothing_gathered, date_text, sooner,
  gather_one, gather, listed, read_credits,
}

abbrev Differ : Credit → Credit → Type 0
Differ a b = a.id ≢ b.id

-- The list is sorted, by expiry and then by id, no two ids are the same, no credit has expired, and
-- the count covers the list.
pub record IsOrdered (now : Time) (l : CreditList) : Type 0 where
  pub sorted : Sorted sooner l.available
  pub distinct : Pairwise Differ l.available
  pub alive : All (λ c. now < c.expires_at) l.available
  pub counted : length l.available ≤ l.available_count

record IsGathered (now : Time) (g : Gathered) : Type 0 where
  distinct : Pairwise Differ g.available
  alive : All (λ c. now < c.expires_at) g.available
  seen : All (λ c. contains g.seen c.id ≡ true) g.available
  counted : length g.available ≤ g.details

sooner_asym : (a b : Credit) → sooner a b ≡ true → sooner b a ≡ false
sooner_asym a b h = ground (arith, text_less_asym a.id b.id)

module _ (sha256_hex : String → String) (parse_date : String → Option Time) (now : Time) where
  add_credit-IsGathered :
      (item : CreditItem) (id : String) (expires_at : Time) (g : Gathered)
      → now < expires_at
      → contains g.seen id ≡ false
      → IsGathered now g
      → IsGathered now (add_credit sha256_hex parse_date now item id expires_at g)
  add_credit-IsGathered item id expires_at g later fresh h =
      let credit : Credit = record {
        id = id;
        ref = short_hash sha256_hex "credit" id;
        expires_at = expires_at;
      } in
      let seen' : All (λ c. contains (id ∷ g.seen) c.id ≡ true) g.available =
        map-All (λ c s. ground (arith, s)) g.available h.seen in
      let differ : All (λ c. Differ c credit) g.available =
        map-All (λ c s same. ground (arith, s, fresh, ap (λ i. contains g.seen i) same)) g.available
          h.seen in
      elim (Bool-cases (trim_space item.reset_type == "codex_rate_limits")) [
        | inl taken ↦ rw taken record {
          distinct = append-Pairwise Differ g.available credit h.distinct differ;
          alive = append-All _ g.available credit h.alive later;
          seen = append-All _ g.available credit seen' (ground (arith, eq_iff id id));
          counted = omega (arith, h.counted, length-append g.available (credit ∷ []));
        }
        | inr left ↦ rw left record {
          distinct = h.distinct;
          alive = h.alive;
          seen = seen';
          counted = omega (arith, h.counted);
        }
      ]

  add_dated-IsGathered :
      (item : CreditItem) (id : String) (date : Option Time) (g : Gathered)
      → contains g.seen id ≡ false
      → IsGathered now g
      → Succeeds (IsGathered now) (add_dated sha256_hex parse_date now item id date g)
  add_dated-IsGathered item id none g fresh h = tt
  add_dated-IsGathered item id (some expires_at) g fresh h =
      elim (Bool-cases (after expires_at now)) [
        | inl later ↦
            rw (later, Succeeds)
              (add_credit-IsGathered item id expires_at g (ground (arith, later)) fresh h)
        | inr over ↦ rw (over, Succeeds) tt
      ]

  gather_one-IsGathered :
      (item : CreditItem) (g : Gathered)
      → IsGathered now g
      → Succeeds (IsGathered now) (gather_one sha256_hex parse_date now item g)
  unfolding gather_one
  gather_one-IsGathered item g h =
      let status = trim_space item.status in
      let id = trim_space item.id in
      let date = date_text item.expires_at in
      elim (Bool-cases (contains g.seen id)) [
        | inl twice ↦ ground (arith, twice, h)
        | inr fresh ↦
            ground (arith, fresh, h, add_dated-IsGathered item id (parse_date date) g fresh h)
      ]

  gather-IsGathered :
      (items : List CreditItem) (g : Gathered)
      → IsGathered now g
      → Succeeds (IsGathered now) (gather sha256_hex parse_date now items g)
  unfolding gather
  gather-IsGathered [] g h = h
  gather-IsGathered (item ∷ items) g h =
      elim (gather_one sha256_hex parse_date now item g)
          as (λ r.
            Succeeds (IsGathered now) r
            → Succeeds (IsGathered now)
                (elim r [ err e ↦ err e | ok g' ↦ gather sha256_hex parse_date now items g' ])) [
                  | err e ↦ λ _. tt
                  | ok g' ↦ λ h'. gather-IsGathered items g' h'
                ]
        (gather_one-IsGathered item g h)

  listed-IsOrdered :
      (n : ℕ) (r : Result Gathered)
      → Succeeds (IsGathered now) r
      → Succeeds (IsOrdered now) (listed sha256_hex parse_date now n r)
  listed-IsOrdered n (err e) h = tt
  listed-IsOrdered n (ok g) h = elim (Bool-cases (eqb n g.details)) [
    | inr other ↦ rw (other, Succeeds) tt
    | inl same ↦
        rw (same, Succeeds)
          record {
            sorted = sort_by-Sorted sooner sooner_asym g.available;
            distinct = sort_by-Pairwise Differ sooner (λ a b d e. d (sym e)) g.available h.distinct;
            alive = sort_by-All sooner _ g.available h.alive;
            counted = ground (arith, same, h.counted, sort_by-length sooner g.available);
          }
  ]

  -- A list of credits that the client returns is sorted by expiry and then by id, names no credit
  -- twice, holds only credits that expire after `now`, and no more of them than the service counts.
  pub read_credits-IsOrdered :
      (response : Option CreditResponse)
      → Succeeds (IsOrdered now) (read_credits sha256_hex parse_date now response)
  unfolding read_credits
  read_credits-IsOrdered response = elim (Option-cases response) [
    | inl undecoded ↦ rw (undecoded, Succeeds) tt
    | inr (r, decoded) ↦ rw (decoded, Succeeds) (counted r r.available_count)
  ]
    where
      counted :
          (r : CreditResponse) (count : Option ℤ)
          → Succeeds (IsOrdered now) (elim count [
            | some (pos n) ↦
                listed sha256_hex parse_date now n
                  (gather sha256_hex parse_date now r.credits nothing_gathered)
            | _ ↦ err (plain "invalid reset credit response")
          ])
      counted r none = tt
      counted r (some (negsuc _)) = tt
      counted r (some (pos n)) =
          listed-IsOrdered n (gather sha256_hex parse_date now r.credits nothing_gathered) (
            gather-IsGathered r.credits nothing_gathered
              (record { distinct = tt; alive = tt; seen = tt; counted = omega arith }))
