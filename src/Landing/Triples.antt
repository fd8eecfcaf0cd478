-- ===== src/Landing/Triples.antt =====
-- Reasoning on the runs of Landing: what holds after a run, whether it returns or throws.
use koul.Base.{Option, none, some, [], ◌∷◌, ◌++◌, All, All-append, In, In-append_left, ◌≡◌, true}
use koul.Landing.Defs.{Failure}
use koul.Landing.Runs.{
  Event, Outcome, thrown, returned, State, Run, pure, throw, ask, answered, note, ◌>>=◌, follow,
}

module _ {W : Type 0} where
  abbrev pub Ends :
      {A : Type 0} → (A → State W → Type 0) → (State W → Type 0) → Outcome A → State W → Type 0
  Ends good bad (thrown e) st = bad st
  Ends good bad (returned a) st = good a st

  pub record Triple {A : Type 0} (before : State W → Type 0) (m : Run W A)
      (good : A → State W → Type 0) (bad : State W → Type 0) : Type 0 where
    pub holds : (st : State W) → before st → Ends good bad (m st).0 (m st).1

  -- What calls of the network and events that satisfy P do not break
  pub record IsStable (P : Event → Type 0) (K : State W → Type 0) : Type 0 where
    pub world : (st : State W) (w : W) → K st → K (record st { world = w })
    pub noted : (st : State W) (e : Event) → P e → K st → K (record st { log = st.log ++ e ∷ [] })

  module _ {A B : Type 0} where
    Ends-follow :
        (good : A → State W → Type 0) (bad : State W → Type 0) (last : B → State W → Type 0)
        (out : Outcome A) (st : State W) (next : A → Run W B)
        → Ends good bad out st
        → ((a : A) → Triple (good a) (next a) last bad)
        → Ends last bad (follow out next st).0 (follow out next st).1
    Ends-follow good bad last (thrown e) st next h k = h
    Ends-follow good bad last (returned a) st next h k = (k a).holds st h

    pub then_run :
        {before : State W → Type 0} {mid : A → State W → Type 0} {bad : State W → Type 0}
        {last : B → State W → Type 0} {m : Run W A} {next : A → Run W B}
        → Triple before m mid bad
        → ((a : A) → Triple (mid a) (next a) last bad)
        → Triple before (m >>= next) last bad
    then_run {mid} {bad} {last} {m} {next} h k = record {
      holds = λ st b. Ends-follow mid bad last (m st).0 (m st).1 next (h.holds st b) k;
    }

  -- A fact that the state has no part in
  pub given_run :
      {A : Type 0} {Q : Type 0} {K : State W → Type 0} {m : Run W A} {good : A → State W → Type 0}
      {bad : State W → Type 0}
      → (Q → Triple K m good bad)
      → Triple (λ st. K st × Q) m good bad
  given_run h = record { holds = λ st k. (h k.1).holds st k.0 }

  pub pure_run :
      {A : Type 0} {good : A → State W → Type 0} {bad : State W → Type 0} (a : A)
      → Triple (good a) (pure a) good bad
  pure_run a = record { holds = λ st h. h }

  pub pure_given :
      {A : Type 0} {K : State W → Type 0} {bad : State W → Type 0} (Q : A → Type 0) (a : A)
      → Q a
      → Triple K (pure a) (λ r st. K st × Q r) bad
  pure_given Q a q = record { holds = λ st h. (h, q) }

  pub throw_run :
      {A : Type 0} {good : A → State W → Type 0} {bad : State W → Type 0} (e : Failure)
      → Triple bad (throw e) good bad
  throw_run e = record { holds = λ st h. h }

  module _ {P : Event → Type 0} {K : State W → Type 0} (stable : IsStable P K) where
    answered-Keeps :
        {A : Type 0} (e : Failure) (o : Option A) (w : W) (st : State W)
        → K st
        → Ends (λ a. K) K (answered e (o, w) st).0 (answered e (o, w) st).1
    answered-Keeps e none w st h = stable.world st w h
    answered-Keeps e (some a) w st h = stable.world st w h

    pub ask-Keeps :
        {A : Type 0} (e : Failure) (call : W → Option A × W) → Triple K (ask e call) (λ a. K) K
    ask-Keeps e call = record {
      holds = λ st h. answered-Keeps e (call st.world).0 (call st.world).1 st h;
    }

    pub note-Keeps : (e : Event) → P e → Triple K (note e) (λ a. K) K
    note-Keeps e p = record { holds = λ st h. stable.noted st e p h }

module _ {W A : Type 0} where
  -- What holds either way
  pub Ends-both :
      (K : State W → Type 0) (out : Outcome A) (st : State W) → Ends (λ a. K) K out st → K st
  Ends-both K (thrown e) st h = h
  Ends-both K (returned a) st h = h

  Ends-pair :
      (K : State W → Type 0) (Q : A → State W → Type 0) (out : Outcome A) (st : State W)
      → Ends (λ a. K) K out st
      → Ends Q (λ s. Unit) out st
      → Ends (λ a s. K s × Q a s) K out st
  Ends-pair K Q (thrown e) st h q = h
  Ends-pair K Q (returned a) st h q = (h, q)

  pub pair_run :
      {K : State W → Type 0} {Q : A → State W → Type 0} {m : Run W A}
      → Triple K m (λ a. K) K
      → Triple (λ st. Unit {0}) m Q (λ st. Unit)
      → Triple K m (λ a st. K st × Q a st) K
  pair_run {K} {Q} {m} h q = record {
    holds = λ st k. Ends-pair K Q (m st).0 (m st).1 (h.holds st k) (q.holds st tt);
  }

  Ends-weaken :
      (good : A → State W → Type 0) (bad other : State W → Type 0) (out : Outcome A) (st : State W)
      → ((s : State W) → bad s → other s)
      → Ends good bad out st
      → Ends good other out st
  Ends-weaken good bad other (thrown e) st f h = f st h
  Ends-weaken good bad other (returned a) st f h = h

  pub weaken_run :
      {before : State W → Type 0} {good : A → State W → Type 0} {bad other : State W → Type 0}
      {m : Run W A}
      → ((s : State W) → bad s → other s)
      → Triple before m good bad
      → Triple before m good other
  weaken_run {good} {bad} {other} {m} f h = record {
    holds = λ st b. Ends-weaken good bad other (m st).0 (m st).1 f (h.holds st b);
  }

-- The key is held and the log has only events of a kind.
abbrev pub Live : {W : Type 0} → (Event → Type 0) → State W → Type 0
Live P st = (st.holds_key ≡ true) × All P st.log

pub Live-IsStable : {W : Type 0} (P : Event → Type 0) → IsStable {W = W} P (Live P)
Live-IsStable P = record {
  world = λ st w h. h;
  noted = λ st e p h. (h.0, All-append P st.log (e ∷ []) h.1 (p, tt));
}

pub In-IsStable : {W : Type 0} (x : Event) → IsStable {W = W} (λ e. Unit) (λ st. In x st.log)
In-IsStable x = record {
  world = λ st w h. h;
  noted = λ st e p h. In-append_left x st.log (e ∷ []) h;
}
