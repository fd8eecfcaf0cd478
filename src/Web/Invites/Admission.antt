-- ===== src/Web/Invites/Admission.antt =====
-- `gateFor` of web/lib/app-host.ts with the invites of web/lib/invite.ts: whom it lets in.
use koul.Base.{
  ℕ, true, Option, none, some, List, [], ◌∷◌, all, Text, member, ◌≡◌, ◌≢◌, refl, arith, Bool-cases,
  inl, inr,
}
use koul.Web.Invites.{
  WebApi, admit, waitlist, knows, try_personal, try_code, sign_invite, personal_of,
  personal_code_exists,
}
use koul.Web.Invites.Laws.{is_base64, IsSigned, verify_invite_iff}

-- A cookie that is one of the listed codes, or what signing a code with the secret gives
pub data IsInvited (api : WebApi) (list : List Text) : Option Text → Text → Type 0 where
  listed :
      {secret : Option Text} {cookie : Text}
      → member cookie list ≡ true
      → IsInvited api list secret cookie
  signed :
      {secret cookie : Text}
      → secret ≢ []
      → IsSigned api secret cookie
      → IsInvited api list (some secret) cookie

pub knows-IsInvited :
    (api : WebApi) (store : Text → Option ℕ) (list : List Text) (secret : Option Text)
    (cookie : Text)
    → ((secret message : Text) → all is_base64 (api.base64_mac message secret) ≡ true)
    → knows list (personal_of api store secret) cookie ≡ true
    → IsInvited api list secret cookie
unfolding personal_of
knows-IsInvited api store list none cookie base64 h = listed h
knows-IsInvited api store list (some []) cookie base64 h = listed h
knows-IsInvited api store list (some (c ∷ s)) cookie base64 h =
    elim (Bool-cases (member cookie list)) [
      | inl e ↦ listed e
      | inr e ↦
          signed (λ q. cc) ((verify_invite_iff api (c ∷ s) (base64 (c ∷ s)) cookie).0 (rw e at h))
    ]

pub IsInvited-knows :
    (api : WebApi) (store : Text → Option ℕ) (list : List Text) (secret : Option Text)
    (cookie : Text)
    → ((secret message : Text) → all is_base64 (api.base64_mac message secret) ≡ true)
    → IsInvited api list secret cookie
    → knows list (personal_of api store secret) cookie ≡ true
unfolding personal_of
IsInvited-knows api store list none cookie base64 (listed e) = e
IsInvited-knows api store list (some []) cookie base64 (listed e) = e
IsInvited-knows api store list (some (c ∷ s)) cookie base64 (listed e) = rw e refl
IsInvited-knows api store list (some []) cookie base64 (signed ne s) = absurd (ne refl)
IsInvited-knows api store list (some (c ∷ s)) cookie base64 (signed ne i) =
    let ok = (verify_invite_iff api (c ∷ s) (base64 (c ∷ s)) cookie).1 i in ground arith

sign_invite-ne : (api : WebApi) (code secret : Text) → code ≢ [] → sign_invite api code secret ≢ []
unfolding sign_invite
sign_invite-ne api [] secret ne = absurd (ne refl)
sign_invite-ne api (c ∷ code) secret ne = λ q. cc

personal-IsInvited :
    (api : WebApi) (store : Text → Option ℕ) (list : List Text) (secret : Option Text)
    → (to code to' cookie : Text) → code ≢ []
    → try_personal (personal_of api store secret) to code ≡ admit to' cookie
    → (cookie ≢ []) × IsInvited api list secret cookie
unfolding personal_of
personal-IsInvited api store list none to code to' cookie ne h = cc
personal-IsInvited api store list (some []) to code to' cookie ne h = cc
personal-IsInvited api store list (some (c ∷ s)) to code to' cookie ne h =
    elim (Bool-cases (personal_code_exists store code)) [
      | inl e ↦
          let h' : admit to (sign_invite api code (c ∷ s)) ≡ admit to' cookie = rw e at h in
          let q : sign_invite api code (c ∷ s) ≡ cookie = cc in
          rw (← q) (sign_invite-ne api code (c ∷ s) ne, signed (λ p. cc) (code, ne, refl))
      | inr e ↦ let h' : waitlist true ≡ admit to' cookie = rw e at h in cc
    ]

-- The cookie that a code is admitted with is one that is known, whatever the store says later.
pub try_code-IsInvited :
    (api : WebApi) (store : Text → Option ℕ) (list : List Text) (secret : Option Text)
    → (to invite to' cookie : Text)
    → try_code list (personal_of api store secret) to invite ≡ admit to' cookie
    → (cookie ≢ []) × IsInvited api list secret cookie
unfolding personal_of
try_code-IsInvited api store list secret to [] to' cookie h = cc
try_code-IsInvited api store list secret to (c ∷ s) to' cookie h =
    elim (Bool-cases (member (c ∷ s) list)) [
      | inl e ↦
          let h' : admit to (c ∷ s) ≡ admit to' cookie = rw e at h in
          let q : c ∷ s ≡ cookie = cc in rw (← q) ((λ p. cc), listed e)
      | inr e ↦ personal-IsInvited api store list secret to (c ∷ s) to' cookie (λ p. cc) (rw e at h)
    ]
