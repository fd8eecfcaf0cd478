-- ===== src/Core/Permissions/Sets.antt =====
-- `member`, `unique` and `given` as sets.
use koul.Base.{
  ◌≡◌, ◌↔◌, ◌⊎◌, inl, inr, refl, Bool, true, false, List, [], ◌∷◌, arith, Text, text_eq,
  text_eq_iff, member, In, Bool-cases,
}
use koul.Core.Permissions.Defs.{given, unique_from, unique}

pub In-given :
    {A : Type 0} (b : Bool) (a : A) (xs : List A) → b ≡ true → In a xs → In a (given b xs)
In-given true a xs e h = h
In-given false a xs e h = cc

pub In-of_given :
    {A : Type 0} (b : Bool) (a : A) (xs : List A) → In a (given b xs) → (b ≡ true) × In a xs
In-of_given true a xs h = (refl, h)
In-of_given false a xs h = absurd h

pub In-of_member : (x : Text) (ys : List Text) → member x ys ≡ true → In x ys
unfolding member
In-of_member x [] h = cc
In-of_member x (y ∷ ys) h = elim (Bool-cases (text_eq x y)) [
  | inl e ↦ inl ((text_eq_iff x y).0 e)
  | inr e ↦ inr (In-of_member x ys (rw e at h))
]

pub member_of_In : (x : Text) (ys : List Text) → In x ys → member x ys ≡ true
unfolding member
member_of_In x [] h = absurd h
member_of_In x (y ∷ ys) (inl e) = rw ((text_eq_iff x y).1 e)
member_of_In x (y ∷ ys) (inr h) = let ih = member_of_In x ys h in ground arith

In-unique_from : (x : Text) (seen xs : List Text) → In x xs → In x seen ⊎ In x (unique_from seen xs)
unfolding unique_from
In-unique_from x seen [] h = absurd h
In-unique_from x seen (y ∷ ys) h = elim (Bool-cases (member y seen)) [
  | inl old ↦
      rw old (elim h [
        | inl e ↦ inl (rw e (In-of_member y seen old))
        | inr i ↦ In-unique_from x seen ys i
      ])
  | inr new ↦ rw new (elim h [
    | inl e ↦ inr (inl e)
    | inr i ↦ elim (In-unique_from x (y ∷ seen) ys i) [
      | inl (inl e) ↦ inr (inl e)
      | inl (inr k) ↦ inl k
      | inr k ↦ inr (inr k)
    ]
  ])
]

In-of_unique_from : (x : Text) (seen xs : List Text) → In x (unique_from seen xs) → In x xs
unfolding unique_from
In-of_unique_from x seen [] h = absurd h
In-of_unique_from x seen (y ∷ ys) h = elim (Bool-cases (member y seen)) [
  | inl old ↦ inr (In-of_unique_from x seen ys (rw old at h))
  | inr new ↦
      let h' : (x ≡ y) ⊎ In x (unique_from (y ∷ seen) ys) = rw new at h in
      elim h' [ inl e ↦ inl e | inr i ↦ inr (In-of_unique_from x (y ∷ seen) ys i) ]
]

pub In-unique_iff : (x : Text) (xs : List Text) → In x (unique xs) ↔ In x xs
unfolding unique
In-unique_iff x xs = (
  In-of_unique_from x [] xs,
  λ h. elim (In-unique_from x [] xs h) [ inl k ↦ absurd k | inr k ↦ k ],
)
