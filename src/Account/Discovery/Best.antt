-- ===== src/Account/Discovery/Best.antt =====
-- Which auth file of an account a discovery keeps (internal/account/discovery.go: `Discover`,
-- `prefer`).
use cpa_codex_auto_reset.Prelude.{
  String, ◌==◌, ◌≡◌, refl, true, false, Option, none, some, List, [], ◌∷◌, All, Dict, lookup,
  lookup-insert, arith, eq_iff, if◌then◌else◌, Bool-cases, inl, inr,
}
use cpa_codex_auto_reset.Prelude.Text.{text_less_asym, text_less_trans}
use cpa_codex_auto_reset.Account.{Account}
use cpa_codex_auto_reset.Account.Discovery.{
  Host, Entry, candidate_of, prefer, keep_better, with_candidate, collect,
}

prefer_trans : (a b c : Account) → prefer a b ≡ true → prefer b c ≡ true → prefer a c ≡ true
prefer_trans a b c h k = ground (arith, text_less_trans a.auth_index b.auth_index c.auth_index)

prefer_irrefl : (a : Account) → prefer a a ≡ false
prefer_irrefl a = ground (arith, text_less_asym a.auth_index a.auth_index)

abbrev better : Account → Option Account → Account
better c none = c
better c (some current) = if prefer c current then c else current

lookup-keep_better :
    (c : Account) (j : String) (m : Dict Account)
    → lookup j (keep_better c m)
      ≡ (if c.account_id == j then some (better c (lookup j m)) else lookup j m)
lookup-keep_better c j m = ground (arith, eq_iff c.account_id j, lookup-insert c.account_id j c m)

-- There is an account that `c` would not replace.
abbrev pub AtLeast : Account → Option Account → Type 0
AtLeast c o = (a : Account) × (o ≡ some a) × (prefer c a ≡ false)

better-AtLeast : (c d : Account) (o : Option Account) → AtLeast c o → AtLeast c (some (better d o))
better-AtLeast c d o (a, e, h) = elim (Bool-cases (prefer d a)) [
  | inl wins ↦ (d, rw e (rw wins refl), ground (arith, h, prefer_trans c d a))
  | inr loses ↦ (a, rw e (rw loses refl), h)
]

with_candidate-AtLeast :
    (c : Account) (o : Option Account) (k : String) (m : Dict Account)
    → AtLeast c (lookup k m)
    → AtLeast c (lookup k (with_candidate o m))
with_candidate-AtLeast c none k m h = h
with_candidate-AtLeast c (some d) k m h = elim (Bool-cases (d.account_id == k)) [
  | inl same ↦ rw (lookup-keep_better d k m) (rw same (better-AtLeast c d (lookup k m) h))
  | inr other ↦ rw (lookup-keep_better d k m) (rw other h)
]

module _ (host : Host) where
  collect-AtLeast :
      (c : Account) (es : List Entry) (k : String) (m : Dict Account)
      → AtLeast c (lookup k m)
      → AtLeast c (lookup k (collect host es m))
  unfolding collect
  collect-AtLeast c [] k m h = h
  collect-AtLeast c (e ∷ es) k m h =
      collect-AtLeast c es k (with_candidate (candidate_of host e) m)
        (with_candidate-AtLeast c (candidate_of host e) k m h)

  entered :
      (c : Account) (o : Option Account) (m : Dict Account)
      → o ≡ some c
      → AtLeast c (lookup c.account_id (with_candidate o m))
  entered c o m e = rw e (
      rw (lookup-keep_better c c.account_id m)
        (rw ((eq_iff c.account_id c.account_id).1 refl) (at_least_itself (lookup c.account_id m))))
    where
      at_least_itself : (old : Option Account) → AtLeast c (some (better c old))
      at_least_itself none = (c, refl, prefer_irrefl c)
      at_least_itself (some b) = elim (Bool-cases (prefer c b)) [
        | inl wins ↦ (c, rw wins refl, prefer_irrefl c)
        | inr loses ↦ (b, rw loses refl, loses)
      ]

  -- For every auth file that makes an account, the discovery keeps an account under its id that this
  -- one would not replace: an enabled file wins over a disabled one, and then the lesser index does.
  pub collect_keeps_best :
      (entries : List Entry) (accounts : Dict Account)
      → All
          (λ e.
            (c : Account)
            → candidate_of host e ≡ some c
            → AtLeast c (lookup c.account_id (collect host entries accounts)))
          entries
  unfolding collect
  collect_keeps_best [] accounts = tt
  collect_keeps_best (e ∷ entries) accounts =
      let next = with_candidate (candidate_of host e) accounts in
      (
        λ c made.
            collect-AtLeast c entries c.account_id next
              (entered c (candidate_of host e) accounts made),
        collect_keeps_best entries next,
      )
