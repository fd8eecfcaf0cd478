-- ===== src/Web/Limits/Laws.antt =====
-- web/lib/rate-limit.ts: who is refused, and who passes.
use koul.Base.{
  ℕ, Bool, true, false, Option, none, some, List, [], ◌∷◌, Text, inl, inr, ◌≡◌, ◌↔◌, refl,
  Bool-cases,
}
use koul.Web.Limits.{
  LimitName, Check, checks, Refusal, retry_after, refusal_of, Limiter, on_limit, check_all,
  rate_limit,
}

-- The checks are asked one after another, from a world on: the first ones let the request go on, and the
-- next one says no, which gives the refusal of its rule at the time it was asked. An exception is no such
-- answer, so nothing after it is.
pub data Refuses (limiter : Limiter) : List Check → limiter.W → Refusal → Type 0 where
  says_no :
      {c : Check} {cs : List Check} {w w' : limiter.W} (reset : ℕ)
      → limiter.limit c w ≡ (some (false, reset), w')
      → Refuses limiter (c ∷ cs) w (refusal_of c.rule (retry_after reset (limiter.now w')))
  goes_on :
      {c : Check} {cs : List Check} {w w' : limiter.W} {r : Refusal} (reset : ℕ)
      → limiter.limit c w ≡ (some (true, reset), w')
      → Refuses limiter cs w' r
      → Refuses limiter (c ∷ cs) w r

module _ (limiter : Limiter) where
  abbrev Answer : Type 0
  Answer = Option (Bool × ℕ) × limiter.W

  on_limit-Refuses :
      (c : Check) (cs : List Check) (w : limiter.W) (o : Answer) (r : Refusal)
      → limiter.limit c w ≡ o
      → ((w' : limiter.W) → (check_all limiter cs w').0 ≡ some r → Refuses limiter cs w' r)
      → (on_limit limiter c (check_all limiter cs) o).0 ≡ some r
      → Refuses limiter (c ∷ cs) w r
  on_limit-Refuses c cs w (none, w') r e ih h = cc
  on_limit-Refuses c cs w (some (true, reset), w') r e ih h = goes_on reset e (ih w' h)
  on_limit-Refuses c cs w (some (false, reset), w') r e ih h = rw (← given h) (says_no reset e)
    where
      given : {a b : Refusal} → some a ≡ some b → a ≡ b
      given k = cc

  check_all-Refuses :
      (cs : List Check) (w : limiter.W) (r : Refusal)
      → (check_all limiter cs w).0 ≡ some r
      → (limiter.has_store ≡ true) × Refuses limiter cs w r
  unfolding check_all
  check_all-Refuses [] w r h = cc
  check_all-Refuses (c ∷ cs) w r h = elim (Bool-cases limiter.has_store) [
    | inl e ↦ (
      e,
      on_limit-Refuses c cs w (limiter.limit c w) r refl (λ w' k. (check_all-Refuses cs w' r k).1)
          (rw e at h),
    )
    | inr e ↦ let h' : none ≡ some r = rw e at h in cc
  ]

  Refuses-check_all :
      {cs : List Check} {w : limiter.W} {r : Refusal}
      → limiter.has_store ≡ true
      → Refuses limiter cs w r
      → (check_all limiter cs w).0 ≡ some r
  unfolding check_all
  Refuses-check_all s (says_no reset e) = rw (s, e) refl
  Refuses-check_all s (goes_on reset e i) = rw (s, e) (Refuses-check_all s i)

-- A request is refused exactly when there is a store and, of its checks in order, the limiters let it go on
-- until one says no; the refusal is of that one's limit and time. Without a store, or once a limiter
-- fails, it passes.
pub rate_limit_iff :
    (limiter : Limiter) (name : LimitName) (address : Text) (person : Option Text) (w : limiter.W)
    → (r : Refusal)
    → ((rate_limit limiter name address person w).0 ≡ some r)
      ↔ ((limiter.has_store ≡ true) × Refuses limiter (checks name address person) w r)
unfolding rate_limit
rate_limit_iff limiter name address person w r = (
  check_all-Refuses limiter (checks name address person) w r,
  λ h. Refuses-check_all limiter h.0 h.1,
)
