-- ===== src/Account/Discovery/Distinct.antt =====
-- The list that a discovery returns (internal/account/discovery.go: `Discover`).
use mathlib.Core.Path.{subst}
use cpa_codex_auto_reset.Prelude.{
  String, ◌==◌, ◌≡◌, ◌≢◌, refl, sym, ◌∙◌, false, Option, none, some, List, [], ◌∷◌, map, All, Dict,
  lookup, insert, arith, eq_iff, Bool-cases, Option-cases, inl, inr,
}
use cpa_codex_auto_reset.Prelude.Text.{is_empty, text_less_asym, short_hash}
use cpa_codex_auto_reset.Prelude.Sort.{
  Sorted, sort_by-Sorted, sort_by-All, Pairwise, sort_by-Pairwise,
}
use cpa_codex_auto_reset.Account.{Account}
use cpa_codex_auto_reset.Account.Discovery.{
  Host, Entry, AuthResponse, Credential, prefer, candidate_of, account_from, with_candidate,
  collect, by_ref, found, discover,
}

-- An account's reference is the hash of its id, which is not empty.
pub record IsNamed (host : Host) (a : Account) : Type 0 where
  pub named : is_empty a.account_id ≡ false
  pub referred : a.ref ≡ short_hash host.sha256_hex "account" a.account_id

abbrev pub OtherId : Account → Account → Type 0
OtherId a b = a.account_id ≢ b.account_id

abbrev Apart : String → Dict Account → Type 0
Apart k m = All (λ kv. kv.0 ≢ k) m

-- Each account stands under its own id, once.
abbrev IsKeyed : Host → Dict Account → Type 0
IsKeyed host [] = Unit
IsKeyed host ((k, a) ∷ m) = (a.account_id ≡ k) × IsNamed host a × Apart k m × IsKeyed host m

insert-Apart :
    (j k : String) (a : Account) (m : Dict Account) → k ≢ j → Apart j m → Apart j (insert k a m)
unfolding insert
insert-Apart j k a [] d h = (d, tt)
insert-Apart j k a ((i, b) ∷ m) d h = elim (Bool-cases (i == k)) [
  | inl same ↦ rw same (d, h.1)
  | inr other ↦ rw other (h.0, insert-Apart j k a m d h.1)
]

insert-IsKeyed :
    (host : Host) (a : Account) (m : Dict Account)
    → IsNamed host a
    → IsKeyed host m
    → IsKeyed host (insert a.account_id a m)
unfolding insert
insert-IsKeyed host a [] n h = (refl, n, tt, tt)
insert-IsKeyed host a ((i, b) ∷ m) n h = elim (Bool-cases (i == a.account_id)) [
  | inl same ↦ rw same (refl, n, subst (λ k. Apart k m) ((eq_iff i a.account_id).0 same) h.2, h.3)
  | inr other ↦ rw other (
    h.0,
    h.1,
    insert-Apart i a.account_id a m (λ e. ground (arith, e, other, eq_iff i a.account_id)) h.2,
    insert-IsKeyed host a m n h.3,
  )
]

module _ (host : Host) where
  account_from-IsNamed :
      (e : Entry) (r : AuthResponse) (c : Credential) (a : Account)
      → account_from host e r c ≡ some a
      → IsNamed host a
  unfolding account_from
  account_from-IsNamed e r c a h = record {
    named = ground (arith, h);
    referred = ground (arith, h);
  }

  candidate_of-IsNamed : (e : Entry) (a : Account) → candidate_of host e ≡ some a → IsNamed host a
  unfolding candidate_of
  candidate_of-IsNamed e a h = elim (Option-cases (host.get_auth e.auth_index)) [
    | inl unread ↦ absurd (ground (arith, h, unread))
    | inr (r, answered) ↦ elim (Option-cases r.credential) [
      | inl undecoded ↦ absurd (ground (arith, h, answered, undecoded))
      | inr (c, decoded) ↦ account_from-IsNamed e r c a (ground (arith, h, answered, decoded))
    ]
  ]

  with_candidate-IsKeyed :
      (o : Option Account) (m : Dict Account)
      → ((a : Account) → o ≡ some a → IsNamed host a)
      → IsKeyed host m
      → IsKeyed host (with_candidate o m)
  with_candidate-IsKeyed none m n h = h
  with_candidate-IsKeyed (some a) m n h =
      let entered = insert-IsKeyed host a m (n a refl) h in
      elim (Option-cases (lookup a.account_id m)) [
        | inl new ↦ rw (new, IsKeyed) entered
        | inr (b, old) ↦ elim (Bool-cases (prefer a b)) [
          | inl wins ↦ rw (old, IsKeyed) (rw (wins, IsKeyed) entered)
          | inr loses ↦ rw (old, IsKeyed) (rw (loses, IsKeyed) h)
        ]
      ]

  collect-IsKeyed :
      (entries : List Entry) (m : Dict Account)
      → IsKeyed host m
      → IsKeyed host (collect host entries m)
  unfolding collect
  collect-IsKeyed [] m h = h
  collect-IsKeyed (e ∷ entries) m h =
      collect-IsKeyed entries (with_candidate (candidate_of host e) m)
        (with_candidate-IsKeyed (candidate_of host e) m (candidate_of-IsNamed e) h)

  abbrev values : Dict Account → List Account
  values m = map (λ (id, a). a) m

  values-IsNamed : (m : Dict Account) → IsKeyed host m → All (IsNamed host) (values m)
  values-IsNamed [] h = tt
  values-IsNamed ((k, a) ∷ m) h = (h.1, values-IsNamed m h.3)

  values-Apart :
      (k : String) (m : Dict Account)
      → Apart k m
      → IsKeyed host m
      → All (λ b. k ≢ b.account_id) (values m)
  values-Apart k [] d h = tt
  values-Apart k ((j, b) ∷ m) d h = ((λ e. d.0 (sym h.0 ∙ sym e)), values-Apart k m d.1 h.3)

  values-Pairwise : (m : Dict Account) → IsKeyed host m → Pairwise OtherId (values m)
  values-Pairwise [] h = tt
  values-Pairwise ((k, a) ∷ m) h = (
    subst (λ i. All (λ b. i ≢ b.account_id) (values m)) (sym h.0) (values-Apart k m h.2 h.3),
    values-Pairwise m h.3,
  )

  -- A discovery returns the accounts sorted by reference, at most one for each id; every id is not
  -- empty, and every reference is the hash of the account's id.
  pub discover-distinct :
      (accounts : List Account)
      → discover host ≡ some accounts
      → Sorted by_ref accounts × Pairwise OtherId accounts × All (IsNamed host) accounts
  unfolding discover
  discover-distinct accounts h = elim (Option-cases host.list_auth_files) [
    | inl unlisted ↦ absurd (ground (arith, h, unlisted))
    | inr (entries, listed) ↦
        let m = collect host entries [] in
        let keyed = collect-IsKeyed entries [] tt in
        let same : found host entries ≡ accounts = ground (arith, h, listed) in
        subst (λ l. Sorted by_ref l × Pairwise OtherId l × All (IsNamed host) l) same
          (
            sort_by-Sorted by_ref (λ a b. text_less_asym a.ref b.ref) (values m),
            sort_by-Pairwise OtherId by_ref (λ a b d e. d (sym e)) (values m)
                (values-Pairwise m keyed),
            sort_by-All by_ref (IsNamed host) (values m) (values-IsNamed m keyed),
          )
  ]
