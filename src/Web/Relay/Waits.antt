-- ===== src/Web/Relay/Waits.antt =====
-- web/lib/relay-server.ts, the waiting of `lockChannel`: its rounds are enough.
use koul.Base.{
  ℕ, zero, suc, ◌+◌, ◌*◌, ◌≤◌, Bool, true, false, Option, none, some, List, [], ◌∷◌, ltb, Text, inl,
  inr, ◌⊎◌, ◌≡◌, refl, arith, Bool-cases,
}
use koul.Web.Relay.{
  Relay, lock_ms, lock_rounds, locked, lock_first, wait_round, lock_round, lock_until,
}

-- The clock is not turned back, and a wait takes its time.
pub record IsClock (relay : Relay) : Type 0 where
  pub set_later : (i : ℕ) (w : relay.W) → relay.now w ≤ relay.now (relay.set_channel i w).1
  pub shuffled_later :
      (order : List ℕ) (w : relay.W) → relay.now w ≤ relay.now (relay.shuffled order w).1
  pub waits : (ms : ℕ) (w : relay.W) → relay.now w + ms ≤ relay.now (relay.sleep ms w)

module _ (relay : Relay) (clock : IsClock relay) where
  abbrev Lock : Type 0
  Lock = (Text ⊎ Option ℕ) × relay.W

  locked-later :
      (i : ℕ) (more : relay.W → Lock) (o : (Text ⊎ Bool) × relay.W)
      → ((w : relay.W) → relay.now w ≤ relay.now (more w).1)
      → relay.now o.1 ≤ relay.now (locked relay i more o).1
  locked-later i more (inl e, w) h = omega arith
  locked-later i more (inr true, w) h = omega arith
  locked-later i more (inr false, w) h = h w

  lock_first-later :
      (order : List ℕ) (w : relay.W) → relay.now w ≤ relay.now (lock_first relay order w).1
  unfolding lock_first
  lock_first-later [] w = omega arith
  lock_first-later (i ∷ order) w = omega (
    arith,
    clock.set_later i w,
    locked-later i (lock_first relay order) (relay.set_channel i w) (lock_first-later order),
  )

  wait_round-same :
      (more more' : relay.W → Lock) (o : Lock)
      → more (relay.sleep 400 o.1) ≡ more' (relay.sleep 400 o.1)
      → wait_round relay more o ≡ wait_round relay more' o
  wait_round-same more more' (inl e, w) h = refl
  wait_round-same more more' (inr (some i), w) h = refl
  wait_round-same more more' (inr none, w) h = h

  lock_round-same :
      (order : List ℕ) (more more' : relay.W → Lock) (w : relay.W)
      → ((w' : relay.W) → relay.now w + 400 ≤ relay.now w' → more w' ≡ more' w')
      → lock_round relay order more w ≡ lock_round relay order more' w
  lock_round-same [] more more' w h = refl
  lock_round-same (i ∷ order) more more' w h =
      let (shuffled, w') = relay.shuffled (i ∷ order) w in
      let o = lock_first relay shuffled w' in
      wait_round-same more more' o (
        h (relay.sleep 400 o.1) (
          omega (
            arith,
            clock.shuffled_later (i ∷ order) w,
            lock_first-later shuffled w',
            clock.waits 400 o.1,
          )))

  -- Once the rounds cover the time that is left, more of them change nothing.
  lock_until-same :
      (n m end : ℕ) (order : List ℕ) (w : relay.W)
      → n ≤ m
      → end ≤ relay.now w + 400 * n
      → lock_until relay m end order w ≡ lock_until relay n end order w
  unfolding lock_until
  lock_until-same zero zero end order w le h = refl
  lock_until-same zero (suc m) end order w le h =
      let late : ltb (relay.now w) end ≡ false = ground arith in rw late refl
  lock_until-same (suc n) zero end order w le h = absurd (omega (arith, le))
  lock_until-same (suc n) (suc m) end order w le h = elim (Bool-cases (ltb (relay.now w) end)) [
    | inl e ↦ rw e (
        lock_round-same order (lock_until relay m end order) (lock_until relay n end order) w
          (λ w' k. lock_until-same n m end order w' (omega (arith, le)) (omega (arith, h, k))))
    | inr e ↦ rw e refl
  ]

-- The rounds of lockChannel are enough: with any larger number it does the same, when the clock is not turned back
-- and a wait takes its time.
pub lock_rounds_enough :
    (relay : Relay) (clock : IsClock relay) (m : ℕ) (order : List ℕ) (w : relay.W)
    → lock_rounds ≤ m
    → lock_until relay m (relay.now w + lock_ms) order w
      ≡ lock_until relay lock_rounds (relay.now w + lock_ms) order w
lock_rounds_enough relay clock m order w le =
    lock_until-same relay clock lock_rounds m (relay.now w + lock_ms) order w le (omega arith)
