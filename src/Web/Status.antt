-- ===== src/Web/Status.antt =====
-- What the status page counts and the account page lists (internal/web/handler.go).
use cpa_codex_auto_reset.Prelude.{
  ℕ, ◌+◌, ◌≡◌, refl, String, Bool, true, not, ◌&&◌, [], ◌∷◌, Dict, ltb, length, is_some, arith,
}
use cpa_codex_auto_reset.Prelude.Time.{is_zero}
use cpa_codex_auto_reset.Prelude.Text.{is_empty}
use cpa_codex_auto_reset.Prelude.Sort.{sort_by-length}
use cpa_codex_auto_reset.State.{State, AccountState, is_present}
use cpa_codex_auto_reset.Web.{
  StatusCounts, no_counts, one_if, count_account, count_accounts, next_allowed_at, views, by_name,
  account_list,
}

-- How many present accounts satisfy the test.
abbrev pub count_by : (AccountState → Bool) → Dict AccountState → ℕ
count_by test [] = 0
count_by test ((_, item) ∷ accounts) =
    one_if (is_present item && test item) + count_by test accounts

-- The counts are those of the accounts that satisfy each description, on top of `c`.
record Adds (accounts : Dict AccountState) (c d : StatusCounts) : Type 0 where
  total : d.total ≡ c.total + count_by (λ _. true) accounts
  participating : d.participating ≡ c.participating + count_by (λ a. a.participating) accounts
  not_participating :
      d.not_participating ≡ c.not_participating + count_by (λ a. not a.participating) accounts
  with_credits :
      d.with_credits ≡ c.with_credits + count_by (λ a. ltb 0 a.available_credits) accounts
  cooling :
      d.cooling_or_backoff
      ≡ c.cooling_or_backoff + count_by (λ a. not (is_zero (next_allowed_at a))) accounts
  errors : d.errors ≡ c.errors + count_by (λ a. not (is_empty a.last_error_code)) accounts

count_accounts-Adds :
    (accounts : Dict AccountState) (c : StatusCounts) → Adds accounts c (count_accounts accounts c)
unfolding count_accounts count_account
count_accounts-Adds [] c = record {
  total = omega arith;
  participating = omega arith;
  not_participating = omega arith;
  with_credits = omega arith;
  cooling = omega arith;
  errors = omega arith;
}
count_accounts-Adds ((ref, item) ∷ accounts) c =
    let ih = count_accounts-Adds accounts (count_account item c) in
    record {
      total = ground (arith, ih.total);
      participating = ground (arith, ih.participating);
      not_participating = ground (arith, ih.not_participating);
      with_credits = ground (arith, ih.with_credits);
      cooling = ground (arith, ih.cooling);
      errors = ground (arith, ih.errors);
    }

split :
    (accounts : Dict AccountState)
    → count_by (λ a. a.participating) accounts + count_by (λ a. not a.participating) accounts
      ≡ count_by (λ _. true) accounts
split [] = omega arith
split ((ref, item) ∷ accounts) = ground (arith, split accounts)

views-length :
    (accounts : Dict AccountState) → length (views accounts) ≡ count_by (λ _. true) accounts
unfolding views
views-length [] = refl
views-length ((ref, item) ∷ accounts) = ground (arith, views-length accounts)

-- The status page counts, among the accounts that the last discovery returned, those that take part,
-- do not, have credits, and show an error; those that take part and those that do not add up to the
-- total, which is the number of accounts that the account page lists.
pub status_counts_lem :
    (to_lower : String → String) (s : State)
    → let c = count_accounts s.accounts no_counts in
      (c.participating ≡ count_by (λ a. a.participating) s.accounts)
      × (c.not_participating ≡ count_by (λ a. not a.participating) s.accounts)
      × (c.with_credits ≡ count_by (λ a. ltb 0 a.available_credits) s.accounts)
      × (c.errors ≡ count_by (λ a. not (is_empty a.last_error_code)) s.accounts)
      × (c.participating + c.not_participating ≡ c.total)
      × (length (account_list to_lower s) ≡ c.total)
unfolding account_list
status_counts_lem to_lower s =
    let a = count_accounts-Adds s.accounts no_counts in
    (
      omega (arith, a.participating),
      omega (arith, a.not_participating),
      omega (arith, a.with_credits),
      omega (arith, a.errors),
      omega (arith, a.participating, a.not_participating, a.total, split s.accounts),
      omega (
        arith,
        sort_by-length (by_name to_lower) (views s.accounts),
        views-length s.accounts,
        a.total,
      ),
    )

abbrev pub has_no_time : AccountState → Bool
has_no_time a =
    not (is_some a.post_reset_cooldown)
    && not (is_some a.failure_backoff)
    && not (is_some a.pending_local_clear)

free_of_times : (a : AccountState) → has_no_time a ≡ true → is_zero (next_allowed_at a) ≡ true
unfolding next_allowed_at
free_of_times a h = ground (arith, h)

-- The number of accounts that the status page shows as cooling or backing off does not depend on the
-- time: it is the number of present accounts whose latest time is not the zero time, also where that
-- time has passed. An account with no cooldown, backoff or pending clear is not among them.
pub cooling_or_backoff_lem :
    (s : State) (a : AccountState)
    → ((count_accounts s.accounts no_counts).cooling_or_backoff
        ≡ count_by (λ b. not (is_zero (next_allowed_at b))) s.accounts)
      × (has_no_time a ≡ true → is_zero (next_allowed_at a) ≡ true)
cooling_or_backoff_lem s a =
    let counts = count_accounts-Adds s.accounts no_counts in
    (omega (arith, counts.cooling), free_of_times a)
