-- ===== src/Competition/Chunks/Laws.antt =====
-- The groups hold every item once and in order, fit a request, and are as full as the next item
-- allows; the history stays within its pushes a day.
use koul.Base.{
  ℕ, ◌+◌, ◌*◌, ◌≤◌, ◌<◌, ◌≡◌, refl, sym, ◌∙◌, ◌⊎◌, inl, inr, true, false, not, ◌&&◌, List, [], ◌∷◌,
  ◌++◌, append_assoc, append-nil, arith, is_nil, ltb, Bool-cases, and-true, join, join-snoc, All,
  All-append,
}
use koul.Competition.Chunks.{
  history_every_ms, hour_ms, history_pushes_per_day, with_last, chunk_loop, chunk_by_size,
}

-- At most `history_pushes_per_day` points a day are pushed for all entries together, and an entry
-- gets no more than one an hour.
pub history_budget :
    (entries : ℕ)
    → (hour_ms ≤ history_every_ms entries)
      × (entries * (24 * hour_ms) ≤ history_pushes_per_day * history_every_ms entries)
unfolding history_every_ms
history_budget entries = omega arith

module _ {A : Type 0} (bytes : A → ℕ) (limit : ℕ) where
  abbrev pub total : List A → ℕ
  total [] = 0
  total (x ∷ xs) = bytes x + total xs

  -- A group that one request takes: not empty, and within the limit unless it is a single item.
  abbrev pub Sendable : List A → Type 0
  Sendable [] = ⊥
  Sendable (x ∷ []) = Unit {0}
  Sendable (x ∷ y ∷ zs) = total (x ∷ y ∷ zs) ≤ limit

  total-snoc : (xs : List A) (x : A) → total (xs ++ x ∷ []) ≡ total xs + bytes x
  total-snoc [] x = omega arith
  total-snoc (y ∷ ys) x = omega (arith, total-snoc ys x)

  join-with_last :
      (out : List (List A)) (group : List A) → join (with_last out group) ≡ join out ++ group
  join-with_last out [] = sym (append-nil (join out))
  join-with_last out (x ∷ xs) = join-snoc out (x ∷ xs)

  join-chunk_loop :
      (out : List (List A)) (group : List A) (size : ℕ) (items : List A)
      → join (chunk_loop bytes limit out group size items) ≡ join out ++ (group ++ items)
  unfolding chunk_loop
  join-chunk_loop out group size [] = rw append-nil (join-with_last out group)
  join-chunk_loop out group size (item ∷ items) =
      elim (Bool-cases (not (is_nil group) && ltb limit (size + bytes item))) [
        | inl close ↦ rw close (
            join-chunk_loop (out ++ group ∷ []) (item ∷ []) (bytes item) items
            ∙ rw (join-snoc out group, append_assoc) refl)
        | inr grow ↦ rw grow (
            join-chunk_loop out (group ++ item ∷ []) (size + bytes item) items
            ∙ rw (append_assoc group (item ∷ []) items) refl)
      ]

  Sendable-snoc :
      (g : List A) (x : A)
      → Sendable g ⊎ (g ≡ [])
      → (not (is_nil g) && ltb limit (total g + bytes x)) ≡ false
      → Sendable (g ++ x ∷ [])
  Sendable-snoc [] x h e = tt
  Sendable-snoc (y ∷ []) x h e =
      let k : total (y ∷ []) + bytes x ≤ limit = ground arith in omega arith
  Sendable-snoc (y ∷ z ∷ g) x h e =
      let k : total (y ∷ z ∷ g) + bytes x ≤ limit = ground arith in
      omega (arith, k, total-snoc (y ∷ z ∷ g) x)

  settled : (g : List A) → Sendable g ⊎ (g ≡ []) → not (is_nil g) ≡ true → Sendable g
  settled [] h e = cc
  settled (x ∷ g) (inl h) e = h
  settled (x ∷ g) (inr h) e = cc

  chunk_loop-Sendable :
      (out : List (List A)) (group : List A) (items : List A)
      → All Sendable out
      → Sendable group ⊎ (group ≡ [])
      → All Sendable (chunk_loop bytes limit out group (total group) items)
  unfolding chunk_loop
  chunk_loop-Sendable out [] [] h g = h
  chunk_loop-Sendable out (x ∷ xs) [] h g =
      All-append Sendable out ((x ∷ xs) ∷ []) h (settled (x ∷ xs) g refl, tt)
  chunk_loop-Sendable out group (item ∷ items) h g =
      elim (Bool-cases (not (is_nil group) && ltb limit (total group + bytes item))) [
        | inl close ↦
            let full = settled group g (and-true (not (is_nil group)) _ close).0 in
            let alone : total (item ∷ []) ≡ bytes item = omega arith in
            rw close (
              rw alone at (
                chunk_loop-Sendable (out ++ group ∷ []) (item ∷ []) items
                  (All-append Sendable out (group ∷ []) h (full, tt)) (inl tt)))
        | inr grow ↦ rw grow (
            rw (total-snoc group item) at (
              chunk_loop-Sendable out (group ++ item ∷ []) items h
                (inl (Sendable-snoc group item g grow))))
      ]

  -- Each group is closed only because the next item would not fit in it.
  abbrev pub Tight : List (List A) → Type 0
  Tight [] = Unit {0}
  Tight (g ∷ []) = Unit
  Tight (g ∷ [] ∷ gs) = ⊥
  Tight (g ∷ (y ∷ h) ∷ gs) = (limit < total g + bytes y) × Tight ((y ∷ h) ∷ gs)

  Tight-grow :
      (out : List (List A)) (y : A) (h : List A) (x : A)
      → Tight (out ++ (y ∷ h) ∷ [])
      → Tight (out ++ (y ∷ h ++ x ∷ []) ∷ [])
  Tight-grow [] y h x t = tt
  Tight-grow (g ∷ []) y h x t = t
  Tight-grow (g ∷ [] ∷ gs) y h x t = t
  Tight-grow (g ∷ (z ∷ k) ∷ gs) y h x t = (t.0, Tight-grow ((z ∷ k) ∷ gs) y h x t.1)

  Tight-close :
      (out : List (List A)) (g : List A) (y : A)
      → limit < total g + bytes y
      → Tight (out ++ g ∷ [])
      → Tight ((out ++ g ∷ []) ++ (y ∷ []) ∷ [])
  Tight-close [] g y l t = (l, tt)
  Tight-close (f ∷ []) [] y l t = absurd t
  Tight-close (f ∷ []) (z ∷ g) y l t = (t.0, (l, tt))
  Tight-close (f ∷ [] ∷ gs) g y l t = absurd t
  Tight-close (f ∷ (z ∷ k) ∷ gs) g y l t = (t.0, Tight-close ((z ∷ k) ∷ gs) g y l t.1)

  chunk_loop-Tight :
      (out : List (List A)) (y : A) (h : List A) (items : List A)
      → Tight (out ++ (y ∷ h) ∷ [])
      → Tight (chunk_loop bytes limit out (y ∷ h) (total (y ∷ h)) items)
  unfolding chunk_loop
  chunk_loop-Tight out y h [] t = t
  chunk_loop-Tight out y h (item ∷ items) t =
      elim (Bool-cases (ltb limit (total (y ∷ h) + bytes item))) [
        | inl close ↦
            let alone : total (item ∷ []) ≡ bytes item = omega arith in
            rw close (
              rw alone at (
                chunk_loop-Tight (out ++ (y ∷ h) ∷ []) item [] items
                  (Tight-close out (y ∷ h) item (ground arith) t)))
        | inr grow ↦ rw grow (
            rw (total-snoc (y ∷ h) item) at
              (chunk_loop-Tight out y (h ++ item ∷ []) items (Tight-grow out y h item t)))
      ]

  chunk_by_size-Tight : (items : List A) → Tight (chunk_by_size items bytes limit)
  unfolding chunk_by_size
  chunk_by_size-Tight [] = tt
  chunk_by_size-Tight (x ∷ xs) =
      let alone : total (x ∷ []) ≡ 0 + bytes x = omega arith in
      rw alone at (chunk_loop-Tight [] x [] xs tt)

  -- The groups hold all items, each once and in order; no group is empty; a group of more than one
  -- item is within the limit; and a group ends only where the next item would have passed the limit.
  pub chunk_by_size_sound :
      (items : List A)
      → (join (chunk_by_size items bytes limit) ≡ items)
        × All Sendable (chunk_by_size items bytes limit)
        × Tight (chunk_by_size items bytes limit)
  chunk_by_size_sound items = (
    unfold chunk_by_size in join-chunk_loop [] [] 0 items,
    unfold chunk_by_size in chunk_loop-Sendable [] [] items tt (inr refl),
    chunk_by_size-Tight items,
  )
