-- ===== src/Core/SecretGuard.antt =====
-- packages/core/src/anchor/secret-guard.ts: the search for secret seeds in a text. `valid` is the SDK's
-- `StrKey.isValidEd25519SecretSeed`.
use koul.Base.{
  ℕ, zero, suc, Bool, true, false, not, ◌&&◌, ◌||◌, List, [], ◌∷◌, ◌++◌, leb, ◌==◌, if◌then◌else◌,
  Text, member, keep, is_nil,
}

abbrev pub is_base32 : ℕ → Bool
is_base32 c = (leb b'A' c && leb c b'Z') || (leb b'2' c && leb c b'7')

-- Whether a text begins with n letters of the alphabet
unfoldable pub begins_base32 : ℕ → Text → Bool
begins_base32 zero s = true
begins_base32 (suc n) [] = false
begins_base32 (suc n) (c ∷ s) = is_base32 c && begins_base32 n s

-- `s.slice(0, n)`
unfoldable pub take : ℕ → Text → Text
take zero s = []
take (suc n) [] = []
take (suc n) (c ∷ s) = c ∷ take n s

-- A match of /S[A-Z2-7]{55}/ at the start
unfoldable pub begins_match : Text → Bool
unfolding begins_base32
begins_match [] = false
begins_match (c ∷ s) = (c == b'S') && begins_base32 55 s

-- `text.match(SECRET_PATTERN)`: the matches from left to right, each after the end of the one before; the
-- number says how much of a match is still to pass.
unfoldable pub matches : ℕ → Text → List Text
unfolding begins_match take
matches n [] = []
matches (suc n) (c ∷ s) = matches n s
matches zero (c ∷ s) =
    let here = (c ∷ take 55 s) ∷ matches 55 s in
    let later = matches zero s in if begins_match (c ∷ s) then here else later

-- The set of them, in order of insertion
unfoldable pub distinct : List Text → List Text → List Text
distinct found [] = found
distinct found (x ∷ xs) = distinct (if member x found then found else found ++ x ∷ []) xs

module _ (valid : Text → Bool) where
  unfoldable pub find_secrets : Text → List Text
  unfolding distinct matches
  find_secrets text = distinct [] (keep valid (matches 0 text))

  unfoldable pub contains_secret : Text → Bool
  unfolding find_secrets
  contains_secret text = not (is_nil (find_secrets text))
