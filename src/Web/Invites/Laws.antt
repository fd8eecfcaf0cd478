-- ===== src/Web/Invites/Laws.antt =====
-- web/lib/invite.ts and `gateFor`: signed codes verify, and whoever is admitted comes in.
use koul.Base.{
  ℕ, Bool, true, false, not, ◌&&◌, ◌||◌, ◌==◌, Option, none, some, [], ◌∷◌, ◌++◌, map, all, length,
  leb, Text, codes, ◌≡◌, ◌≢◌, ◌↔◌, refl, ap, ◌∙◌, arith, Bool-cases, Option-cases, inl, inr,
}
use koul.Web.Invites.{
  WebApi, url_char, before_end, strip_equals, diff_from, same_string, last_dot, hmac, sign_invite,
  verify_parts, verify_invite,
}

abbrev pub is_base64 : ℕ → Bool
is_base64 c =
    (leb b'A' c && leb c b'Z')
    || (leb b'a' c && leb c b'z')
    || (leb b'0' c && leb c b'9')
    || (c == b'+')
    || (c == b'/')
    || (c == b'=')

abbrev pub not_dot : ℕ → Bool
not_dot c = not (c == b'.')

url_char-not_dot : (c : ℕ) → is_base64 c ≡ true → not_dot (url_char c) ≡ true
url_char-not_dot c h = ground arith

map-not_dot : (t : Text) → all is_base64 t ≡ true → all not_dot (map url_char t) ≡ true
map-not_dot [] h = refl
map-not_dot (c ∷ t) h = let first = url_char-not_dot c in let rest = map-not_dot t in ground arith

before_end-not_dot :
    (c : ℕ) (s : Text)
    → not_dot c ≡ true
    → all not_dot s ≡ true
    → all not_dot (before_end c s) ≡ true
before_end-not_dot c [] h k = ground arith
before_end-not_dot c (d ∷ s) h k = ground arith

strip_equals-not_dot : (t : Text) → all not_dot t ≡ true → all not_dot (strip_equals t) ≡ true
unfolding strip_equals
strip_equals-not_dot [] h = refl
strip_equals-not_dot (c ∷ t) h =
    before_end-not_dot c (strip_equals t) (ground arith) (strip_equals-not_dot t (ground arith))

hmac-not_dot :
    (api : WebApi) (message secret : Text)
    → all is_base64 (api.base64_mac message secret) ≡ true
    → all not_dot (hmac api message secret) ≡ true
unfolding hmac
hmac-not_dot api message secret h =
    strip_equals-not_dot (map url_char (api.base64_mac message secret))
      (map-not_dot (api.base64_mac message secret) h)

-- Without a dot after it, the last dot is the one that stands there.
last_dot-none : (t : Text) → all not_dot t ≡ true → last_dot t ≡ none
unfolding last_dot
last_dot-none [] h = refl
last_dot-none (c ∷ t) h =
    let first : (c == b'.') ≡ false = ground arith in
    rw (last_dot-none t (ground arith), first) refl

last_dot-append : (a t : Text) → all not_dot t ≡ true → last_dot (a ++ b'.' ∷ t) ≡ some (a, t)
unfolding last_dot
last_dot-append [] t h = rw (last_dot-none t h) refl
last_dot-append (c ∷ a) t h = rw (last_dot-append a t h) refl

diff_from-seen : (a b : Text) → diff_from true a b ≡ true
diff_from-seen [] b = refl
diff_from-seen (c ∷ a) [] = refl
diff_from-seen (c ∷ a) (d ∷ b) = diff_from-seen a b

diff_from_iff : (a b : Text) → length a ≡ length b → (diff_from false a b ≡ false) ↔ (a ≡ b)
diff_from_iff [] [] h = ground arith
diff_from_iff [] (d ∷ b) h = absurd (omega (arith, h))
diff_from_iff (c ∷ a) [] h = absurd (omega (arith, h))
diff_from_iff (c ∷ a) (d ∷ b) h = elim (Bool-cases (c == d)) [
  | inl e ↦ let ih = diff_from_iff a b (omega (arith, h)) in rw e (grind (arith, ih))
  | inr e ↦ rw (e, diff_from-seen a b) (grind arith)
]

pub same_string_iff : (a b : Text) → (same_string a b ≡ true) ↔ (a ≡ b)
unfolding same_string
same_string_iff a b = elim (Bool-cases (length a == length b)) [
  | inl e ↦ let h = diff_from_iff a b (ground arith) in rw e (grind (arith, h))
  | inr e ↦ rw e (cc, λ q. absurd (ground (arith, ap (λ t. length {A = ℕ} t) q)))
]

some_pair :
    {a b c d : Text}
    → ◌≡◌ {A = Option (Text × Text)} (some (a, b)) (some (c, d))
    → (a ≡ c) × (b ≡ d)
some_pair h = (cc, cc)

-- What stands before and after a last dot, put together again, is the text, and after it no dot comes.
last_dot_lem :
    (s before after : Text) → last_dot s ≡ some (before, after) → s ≡ before ++ b'.' ∷ after
unfolding last_dot
last_dot_lem [] before after h = cc
last_dot_lem (c ∷ s) before after h = elim (Option-cases (last_dot s)) [
  | inl e ↦ elim (Bool-cases (c == b'.')) [
    | inl k ↦
        let h' : ◌≡◌ {A = Option (Text × Text)} (some ([], s)) (some (before, after)) =
          rw (e, k) at h in
        let (none_before, rest) = some_pair h' in
        let dot : c ≡ b'.' = ground arith in rw (dot, ← none_before, rest) refl
    | inr k ↦
        let h' : ◌≡◌ {A = Option (Text × Text)} none (some (before, after)) = rw (e, k) at h in cc
  ]
  | inr ((b, a), e) ↦
      let h' : ◌≡◌ {A = Option (Text × Text)} (some (c ∷ b, a)) (some (before, after)) =
        rw e at h in
      let (first, rest) = some_pair h' in
      rw (← first, ← rest) (ap (λ t. c ∷ t) (last_dot_lem s b a e))
]

abbrev pub IsSigned : WebApi → Text → Text → Type 0
IsSigned api secret cookie = (code : Text) × (code ≢ []) × (cookie ≡ sign_invite api code secret)

module _ (api : WebApi) (secret : Text)
    (base64 : (message : Text) → all is_base64 (api.base64_mac message secret) ≡ true) where
  pub verify_invite-sign_invite :
      (code : Text) → code ≢ [] → verify_invite api (sign_invite api code secret) secret ≡ true
  unfolding verify_invite sign_invite
  verify_invite-sign_invite [] h = absurd (h refl)
  verify_invite-sign_invite (c ∷ code) h =
      let mac = hmac api (codes "invite:" ++ c ∷ code) secret in
      rw
        (last_dot-append (c ∷ code) mac (
          hmac-not_dot api (codes "invite:" ++ c ∷ code) secret
            (base64 (codes "invite:" ++ c ∷ code))))
        ((same_string_iff mac mac).1 refl)

  parts-IsSigned :
      (cookie : Text) (o : Option (Text × Text))
      → last_dot cookie ≡ o
      → verify_parts api secret o ≡ true
      → IsSigned api secret cookie
  unfolding sign_invite
  parts-IsSigned cookie none e h = cc
  parts-IsSigned cookie (some ([], after)) e h = cc
  parts-IsSigned cookie (some (c ∷ before, after)) e h =
      let same = (same_string_iff after (hmac api (codes "invite:" ++ c ∷ before) secret)).0 h in
      (c ∷ before, (λ q. cc), last_dot_lem cookie (c ∷ before) after e ∙ rw same refl)

  -- A cookie verifies exactly when it is what signing some code gives.
  pub verify_invite_iff :
      (cookie : Text) → (verify_invite api cookie secret ≡ true) ↔ IsSigned api secret cookie
  unfolding verify_invite
  verify_invite_iff cookie = (
    parts-IsSigned cookie (last_dot cookie) refl,
    λ s. rw s.2 (verify_invite-sign_invite s.0 s.1),
  )
