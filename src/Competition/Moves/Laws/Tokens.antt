-- ===== src/Competition/Moves/Laws/Tokens.antt =====
-- packages/core/src/competition.ts, `insideMoves`: the tokens of a transaction, a list without repetition.
use koul.Base.{
  true, false, List, [], ◌∷◌, ◌++◌, Text, text_eq, member, leb, length, ◌≡◌, refl, sym, ◌∙◌, arith,
  ◌⊎◌, inl, inr, In, In-append_left, In-append_right, In-append, Bool-cases, text_eq_iff, ◌≢◌,
}
use koul.Competition.Moves.{with_token}

-- A list without repetition.
abbrev pub Distinct : List Text → Type 0
Distinct [] = Unit
Distinct (x ∷ xs) = (member x xs ≡ false) × Distinct xs

pub member-In : (x : Text) (xs : List Text) → member x xs ≡ true → In x xs
unfolding member
member-In x [] h = cc
member-In x (y ∷ ys) h = elim (Bool-cases (text_eq x y)) [
  | inl e ↦ inl ((text_eq_iff x y).0 e)
  | inr e ↦ inr (member-In x ys (rw e at h))
]

pub In-member : (x : Text) (xs : List Text) → In x xs → member x xs ≡ true
unfolding member
In-member x [] h = absurd h
In-member x (y ∷ ys) (inl e) = let t = (text_eq_iff x y).1 e in ground arith
In-member x (y ∷ ys) (inr h) = let t = In-member x ys h in ground arith

pub In-with_token : (x : Text) (xs : List Text) → In x (with_token x xs)
In-with_token x xs = elim (Bool-cases (member x xs)) [
  | inl e ↦ rw e (member-In x xs e)
  | inr e ↦ rw e (In-append_right x xs (x ∷ []) (inl refl))
]

pub In-with_token_old : (x y : Text) (xs : List Text) → In y xs → In y (with_token x xs)
In-with_token_old x y xs h = elim (Bool-cases (member x xs)) [
  | inl e ↦ rw e h
  | inr e ↦ rw e (In-append_left y xs (x ∷ []) h)
]

pub In-of_with_token : (x y : Text) (xs : List Text) → In y (with_token x xs) → (y ≡ x) ⊎ In y xs
In-of_with_token x y xs h = elim (Bool-cases (member x xs)) [
  | inl e ↦ inr (rw e at h)
  | inr e ↦ elim (In-append y xs (x ∷ []) (rw e at h)) [
    | inl i ↦ inr i
    | inr (inl q) ↦ inl q
    | inr (inr v) ↦ absurd v
  ]
]

pub text_eq-false_sym : (x y : Text) → text_eq x y ≡ false → text_eq y x ≡ false
text_eq-false_sym x y h = ground (arith, text_eq_iff x y, text_eq_iff y x)

pub member-snoc :
    (x y : Text) (xs : List Text)
    → member x xs ≡ false
    → text_eq y x ≡ false
    → member x (xs ++ y ∷ []) ≡ false
unfolding member
member-snoc x y [] h k = let e = text_eq-false_sym y x k in ground arith
member-snoc x y (z ∷ xs) h k = let ih = member-snoc x y xs in ground arith

pub Distinct-snoc :
    (x : Text) (xs : List Text) → Distinct xs → member x xs ≡ false → Distinct (xs ++ x ∷ [])
unfolding member
Distinct-snoc x [] d h = (refl, tt)
Distinct-snoc x (y ∷ xs) (d, ds) h =
    (member-snoc y x xs d (ground arith), Distinct-snoc x xs ds (ground arith))

pub Distinct-with_token : (x : Text) (xs : List Text) → Distinct xs → Distinct (with_token x xs)
Distinct-with_token x xs d = elim (Bool-cases (member x xs)) [
  | inl e ↦ rw e d
  | inr e ↦ rw e (Distinct-snoc x xs d e)
]

pub different : (x y : Text) (xs : List Text) → member x (y ∷ xs) ≡ false → x ≢ y
unfolding member
different x y xs h e = let t = (text_eq_iff x y).1 e in ground arith

-- Two different members make a list of two or more.
pub two_members :
    (x y : Text) (xs : List Text) → x ≢ y → In x xs → In y xs → leb 2 (length xs) ≡ true
two_members x y [] d h k = absurd h
two_members x y (z ∷ []) d (inl h) (inl k) = absurd (d (h ∙ sym k))
two_members x y (z ∷ []) d (inr h) k = absurd h
two_members x y (z ∷ []) d (inl h) (inr k) = absurd k
two_members x y (z ∷ w ∷ xs) d h k = ground arith
