-- ===== src/Core/Swap/Laws.antt =====
-- packages/core/src/swap.ts: a path walked the other way.
use mathlib.Core.List.{reverse-append, map-append}
use koul.Base.{
  Bool, true, false, ◌&&◌, Option, none, some, List, [], ◌∷◌, ◌++◌, reverse, map, ◌≡◌, refl, ap,
  ◌∙◌, arith, last, last-append, is_nil, Text, text_eq, text_eq_iff, if◌then◌else◌,
}
use koul.Core.Swap.{SwapHop, turned, reverse_hops, links, starts_at, ends_at, chains}

text_eq_sym : (s t : Text) → text_eq s t ≡ text_eq t s
text_eq_sym s t = ground (arith, text_eq_iff s t, text_eq_iff t s)

reverse_hops-cons :
    (h : SwapHop) (hops : List SwapHop)
    → reverse_hops (h ∷ hops) ≡ reverse_hops hops ++ turned h ∷ []
unfolding reverse_hops
reverse_hops-cons h hops =
    ap (map turned) (reverse-append (h ∷ []) hops) ∙ map-append turned (reverse hops) (h ∷ [])

last-reverse_hops :
    (h : SwapHop) (hops : List SwapHop) → last (reverse_hops (h ∷ hops)) ≡ some (turned h)
last-reverse_hops h hops =
    ap last (reverse_hops-cons h hops) ∙ last-append (reverse_hops hops) (turned h)

abbrev meets : Option SwapHop → SwapHop → Bool
meets none k = true
meets (some h) k = text_eq h.token_to k.token_from

links-append :
    (hops : List SwapHop) (k : SwapHop)
    → links (hops ++ k ∷ []) ≡ (links hops && meets (last hops) k)
unfolding links
links-append [] k = refl
links-append (h ∷ []) k = ground arith
links-append (h ∷ j ∷ hops) k = let ih = links-append (j ∷ hops) k in ground arith

starts_at-append :
    (t : Text) (hops : List SwapHop) (k : SwapHop)
    → starts_at t (hops ++ k ∷ [])
      ≡ (if is_nil hops then text_eq k.token_from t else starts_at t hops)
starts_at-append t [] k = refl
starts_at-append t (h ∷ hops) k = refl

is_nil-reverse_hops : (h : SwapHop) (hops : List SwapHop) → is_nil (reverse_hops (h ∷ hops)) ≡ false
is_nil-reverse_hops h hops = ap is_nil (reverse_hops-cons h hops) ∙ is_nil-snoc (reverse_hops hops)
  where
    is_nil-snoc : (xs : List SwapHop) → is_nil (xs ++ turned h ∷ []) ≡ false
    is_nil-snoc [] = refl
    is_nil-snoc (x ∷ xs) = refl

starts_at-reverse_hops :
    (t : Text) (hops : List SwapHop) → starts_at t (reverse_hops hops) ≡ ends_at t (last hops)
starts_at-reverse_hops t [] = unfold reverse_hops in refl
starts_at-reverse_hops t (h ∷ []) = unfold reverse_hops in refl
starts_at-reverse_hops t (h ∷ k ∷ hops) =
    rw (reverse_hops-cons h (k ∷ hops), starts_at-append, is_nil-reverse_hops)
      (starts_at-reverse_hops t (k ∷ hops))

ends_at-reverse_hops :
    (t : Text) (hops : List SwapHop) → ends_at t (last (reverse_hops hops)) ≡ starts_at t hops
ends_at-reverse_hops t [] = unfold reverse_hops in refl
ends_at-reverse_hops t (h ∷ hops) = rw (last-reverse_hops h hops) refl

and_comm : (a b : Bool) → (a && b) ≡ (b && a)
and_comm a b = ground arith

links-reverse_hops : (hops : List SwapHop) → links (reverse_hops hops) ≡ links hops
links-reverse_hops [] = unfold reverse_hops in refl
links-reverse_hops (h ∷ []) = unfold reverse_hops in unfold links in refl
links-reverse_hops (h ∷ k ∷ hops) =
    rw
      (
        reverse_hops-cons h (k ∷ hops),
        links-append,
        last-reverse_hops k hops,
        links-reverse_hops (k ∷ hops),
        text_eq_sym k.token_from h.token_to,
        and_comm,
      )
      (unfold links in refl)

-- Hops lead from one token to another exactly when the reversed hops lead back.
pub chains-reverse_hops :
    (from_token to_token : Text) (hops : List SwapHop)
    → chains to_token from_token (reverse_hops hops) ≡ chains from_token to_token hops
unfolding chains
chains-reverse_hops from_token to_token hops =
    let a = starts_at-reverse_hops to_token hops in
    let b = ends_at-reverse_hops from_token hops in let c = links-reverse_hops hops in ground arith
