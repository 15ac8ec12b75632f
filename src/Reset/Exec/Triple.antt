-- ===== src/Reset/Exec/Triple.antt =====
-- Conditions before and after an action, with one rule for each way to build an action.
use cpa_codex_auto_reset.Prelude.{ℕ, Bool, true, false, Option, none, some, ◌≡◌, refl}
use cpa_codex_auto_reset.Codex.{CodexError, Result, ok, err}
use cpa_codex_auto_reset.Reset.Exec.{
  World, Exec, Call, ask, send, pure, branch, on_option, on_result, ◌>>=◌,
}

-- From a world where `P` holds, `m` ends in one where `Q` holds.
pub record Triple {A : Type 0} (P Q : World → Type 0) (m : Exec A) : Type 0 where
  pub run : (w : World) → P w → Q (m w).1

module _ {A : Type 0} {P Q : World → Type 0} where
  pub Triple-pure : (a : A) → ((w : World) → P w → Q w) → Triple P Q (pure a)
  unfolding pure
  Triple-pure a h = record { run = h }

  pub Triple-branch :
      (b : Bool) (m n : Exec A) → Triple P Q m → Triple P Q n → Triple P Q (branch b m n)
  unfolding branch
  Triple-branch true m n hm hn = hm
  Triple-branch false m n hm hn = hn

  pub Triple-option :
      {B : Type 0} (o : Option B) (m : Exec A) (f : B → Exec A)
      → Triple P Q m
      → ((b : B) → o ≡ some b → Triple P Q (f b))
      → Triple P Q (on_option o m f)
  unfolding on_option
  Triple-option none m f hm hf = hm
  Triple-option (some b) m f hm hf = hf b refl

  pub Triple-result :
      {B : Type 0} (r : Result B) (f : B → Exec A) (g : CodexError → Exec A)
      → ((b : B) → Triple P Q (f b))
      → ((e : CodexError) → Triple P Q (g e))
      → Triple P Q (on_result r g f)
  unfolding on_result
  Triple-result (ok b) f g hf hg = hf b
  Triple-result (err e) f g hf hg = hg e

  pub Triple-weaken :
      {P' : World → Type 0} (m : Exec A) → ((w : World) → P w → P' w) → Triple P' Q m → Triple P Q m
  Triple-weaken m h t = record { run = λ w p. t.run w (h w p) }

module _ {A B : Type 0} {P Q : World → Type 0} where
  pub Triple-bind :
      (R : World → Type 0) (m : Exec A) (f : A → Exec B)
      → Triple P R m
      → ((a : A) → Triple R Q (f a))
      → Triple P Q (m >>= f)
  unfolding ◌>>=◌
  Triple-bind R m f hm hf = record { run = λ w p. let (a, w') = m w in (hf a).run w' (hm.run w p) }

  -- The first action keeps the condition.
  pub Triple-then :
      (m : Exec A) (f : A → Exec B)
      → Triple P P m
      → ((a : A) → Triple P Q (f a))
      → Triple P Q (m >>= f)
  Triple-then m f hm hf = Triple-bind P m f hm hf

  -- The first action reaches the final condition, and the rest keeps it.
  pub Triple-last :
      (m : Exec A) (f : A → Exec B)
      → Triple P Q m
      → ((a : A) → Triple Q Q (f a))
      → Triple P Q (m >>= f)
  Triple-last m f hm hf = Triple-bind Q m f hm hf

module _ {A : Type 0} {P Q : World → Type 0} where
  -- A test whose outcome the branches may use.
  pub Triple-decide :
      (b : Bool) (m n : Exec A)
      → (b ≡ true → Triple P Q m)
      → (b ≡ false → Triple P Q n)
      → Triple P Q (branch b m n)
  unfolding branch
  Triple-decide true m n hm hn = hm refl
  Triple-decide false m n hm hn = hn refl

  pub Triple-ensure :
      {Q' : World → Type 0} (m : Exec A) → Triple P Q' m → ((w : World) → Q' w → Q w) → Triple P Q m
  Triple-ensure m t h = record { run = λ w p. h (m w).1 (t.run w p) }

  -- A match whose outcome both cases may use.
  pub Triple-match :
      {B : Type 0} (o : Option B) (m : Exec A) (f : B → Exec A)
      → (o ≡ none → Triple P Q m)
      → ((b : B) → o ≡ some b → Triple P Q (f b))
      → Triple P Q (on_option o m f)
  unfolding on_option
  Triple-match none m f hm hf = hm refl
  Triple-match (some b) m f hm hf = hf b refl

  -- A match on an answer that both cases may use.
  pub Triple-answered :
      {B : Type 0} (r : Result B) (f : B → Exec A) (g : CodexError → Exec A)
      → ((b : B) → r ≡ ok b → Triple P Q (f b))
      → ((e : CodexError) → r ≡ err e → Triple P Q (g e))
      → Triple P Q (on_result r g f)
  unfolding on_result
  Triple-answered (ok b) f g hf hg = hf b refl
  Triple-answered (err e) f g hf hg = hg e refl

module _ {A B : Type 0} {P Q : World → Type 0} where
  -- A call is answered by what the environment says at the number of the interaction.
  pub Triple-answer :
      (c : Call) (answer : ℕ → A) (f : A → Exec B)
      → Triple P P (send c answer)
      → ((k : ℕ) → Triple P Q (f (answer k)))
      → Triple P Q (send c answer >>= f)
  unfolding ◌>>=◌
  Triple-answer c answer f hm hf = record { run = λ w p. (hf w.tick).run _ (hm.run w p) }

  -- So is a question.
  pub Triple-asked :
      (answer : ℕ → A) (f : A → Exec B)
      → Triple P P (ask answer)
      → ((k : ℕ) → Triple P Q (f (answer k)))
      → Triple P Q (ask answer >>= f)
  unfolding ◌>>=◌
  Triple-asked answer f hm hf = record { run = λ w p. (hf w.tick).run _ (hm.run w p) }
