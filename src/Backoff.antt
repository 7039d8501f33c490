-- ===== src/Backoff.antt =====
-- `backoff.Retry` with a constant interval and a number of retries. The package is not part of the
-- repository: it is a parameter, with its documented behaviour as laws.
use google_cloud_storage.Base.{ℕ, zero, suc, ◌≡◌, ◌∙◌, sym, ap, refl}
use google_cloud_storage.Base.Result.{Error, Result, ok, err}
use google_cloud_storage.Base.Effect.{M}

pub record Backoff (S A : Type 0) : Type 0 where
  pub retry : ℕ → M S A → M S A
  -- The first success is the result.
  pub retry_ok :
      (n : ℕ) (op : M S A) (s s' : S) (a : A) → op s ≡ (s', ok a) → retry n op s ≡ (s', ok a)
  -- A failure is the result once no retry is left.
  pub retry_last :
      (op : M S A) (s s' : S) (e : Error) → op s ≡ (s', err e) → retry 0 op s ≡ (s', err e)
  pub retry_again :
      (n : ℕ) (op : M S A) (s s' : S) (e : Error)
      → op s ≡ (s', err e)
      → retry (suc n) op s ≡ retry n op s'

-- The laws can be met: the operation is tried until it succeeds.
unfoldable pub attempt : {S A : Type 0} → ℕ → M S A → S × Result A → S × Result A
attempt n op (s, ok a) = (s, ok a)
attempt zero op (s, err e) = (s, err e)
attempt (suc n) op (s, err e) = attempt n op (op s)

pub attempt_ok :
    {S A : Type 0} (n : ℕ) (op : M S A) (s : S) (a : A) → attempt n op (s, ok a) ≡ (s, ok a)
unfolding attempt
attempt_ok zero op s a = refl
attempt_ok (suc n) op s a = refl

unfoldable pub attempts : {S A : Type 0} → Backoff S A
unfolding attempt
attempts = record {
  retry = λ n op s. attempt n op (op s);
  retry_ok = λ n op s s' a h. rw h (attempt_ok n op s' a);
  retry_last = λ op s s' e h. rw h;
  retry_again = λ n op s s' e h. rw h;
}

-- The state of an attempt, after some attempts that failed.
pub data Tried {S A : Type 0} (op : M S A) : S → S → Type 0 where
  first : {s : S} → Tried op s s
  later : {s t u : S} (e : Error) → op s ≡ (t, err e) → Tried op t u → Tried op s u

module _ {S A : Type 0} (B : Backoff S A) (op : M S A) where
  -- A success of the whole is a success of one attempt, after some that failed.
  pub retry-Tried :
      (n : ℕ) (s s' : S) (a : A)
      → B.retry n op s ≡ (s', ok a)
      → (t : S) × Tried op s t × (op t ≡ (s', ok a))
  retry-Tried zero s s' a h = go (op s) refl
    where
      go : (r : S × Result A) → op s ≡ r → (t : S) × Tried op s t × (op t ≡ (s', ok a))
      go (t, ok b) e = (s, first, e ∙ sym (B.retry_ok 0 op s t b e) ∙ h)
      go (t, err x) e =
          let other : ◌≡◌ {A = Result A} (err x) (ok a) =
            ap (λ p. p.1) (sym (B.retry_last op s t x e) ∙ h) in
          absurd (cc)
  retry-Tried (suc n) s s' a h = go (λ t. retry-Tried n t s' a) (op s) refl
    where
      go :
          ((t : S) → B.retry n op t ≡ (s', ok a) → (u : S) × Tried op t u × (op u ≡ (s', ok a)))
          → (r : S × Result A) → op s ≡ r
          → (t : S) × Tried op s t × (op t ≡ (s', ok a))
      go ih (t, ok b) e = (s, first, e ∙ sym (B.retry_ok (suc n) op s t b e) ∙ h)
      go ih (t, err x) e =
          let (u, tried, made) = ih t (sym (B.retry_again n op s t x e) ∙ h) in
          (u, later x e tried, made)

module _ {S A : Type 0} (B : Backoff S A) (op : M S A) (P : S → Type 0) where
  -- What each attempt keeps is kept.
  pub retry_keeps : ((s : S) → P s → P (op s).0) → (n : ℕ) (s : S) → P s → P (B.retry n op s).0
  retry_keeps keep zero s h = go (op s) refl (keep s h)
    where
      go : (r : S × Result A) → op s ≡ r → P r.0 → P (B.retry 0 op s).0
      go (s', ok a) e p = rw (B.retry_ok 0 op s s' a e) p
      go (s', err x) e p = rw (B.retry_last op s s' x e) p
  retry_keeps keep (suc n) s h = go (λ t. retry_keeps keep n t) (op s) refl (keep s h)
    where
      go :
          ((t : S) → P t → P (B.retry n op t).0)
          → (r : S × Result A) → op s ≡ r
          → P r.0
          → P (B.retry (suc n) op s).0
      go ih (s', ok a) e p = rw (B.retry_ok (suc n) op s s' a e) p
      go ih (s', err x) e p = rw (B.retry_again n op s s' x e) (ih s' p)

  -- What each success establishes is established by a success of the whole.
  pub retry_establishes :
      ((s s' : S) (a : A) → op s ≡ (s', ok a) → P s')
      → (n : ℕ) (s s' : S) (a : A) → B.retry n op s ≡ (s', ok a)
      → P s'
  retry_establishes post n s s' a h =
      let (t, tried, e) = retry-Tried B op n s s' a h in post t s' a e
