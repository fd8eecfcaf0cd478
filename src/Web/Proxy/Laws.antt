-- ===== src/Web/Proxy/Laws.antt =====
-- web/proxy.ts: app pages are for the invited, and the admitted stay invited.
use koul.Base.{
  ℕ, Bool, true, false, Option, none, some, List, [], ◌∷◌, all, Text, member, ◌≡◌, ◌≢◌, refl,
  Bool-cases, inl, inr,
}
use koul.Web.Routing.{Route, next, rewrite, redirect, route_for, renders_app}
use koul.Web.Invites.{
  WebApi, Personal, Gate, opened, admit, waitlist, holds_invite, try_code, parse_invite_codes,
  gate_for, personal_of,
}
use koul.Web.Invites.Laws.{is_base64}
use koul.Web.Invites.Admission.{IsInvited, knows-IsInvited, IsInvited-knows, try_code-IsInvited}
use koul.Web.Proxy.{
  Settings, PageRequest, Answer, passed, rewritten, redirected, shows_waitlist, admitted, routed,
  gated_route, waitlist_gated, gate_of, answer_route, proxy,
}

-- The browser's cookie lets it in
pub data Invited (api : WebApi) (settings : Settings) : Option Text → Type 0 where
  invited :
      {cookie : Text}
      → cookie ≢ []
      → IsInvited api (parse_invite_codes api settings.invite_codes) settings.secret cookie
      → Invited api settings (some cookie)

-- Whether the answer shows the page asked for: neither sent elsewhere, nor the waitlist
abbrev pub shows_page : Answer → Bool
shows_page passed = true
shows_page (rewritten to) = true
shows_page (redirected host path search status) = false
shows_page (shows_waitlist invalid) = false
shows_page (admitted to cookie) = false

module _ (api : WebApi) (settings : Settings)
    (base64 : (secret message : Text) → all is_base64 (api.base64_mac message secret) ≡ true) where
  abbrev listed_codes : List Text
  listed_codes = parse_invite_codes api settings.invite_codes

  abbrev personal_with : (Text → Option ℕ) → Option Personal
  personal_with store = personal_of api store settings.secret

  holds-Invited :
      (store : Text → Option ℕ) (cookie : Option Text)
      → holds_invite listed_codes (personal_with store) cookie ≡ true
      → Invited api settings cookie
  holds-Invited store none h = cc
  holds-Invited store (some []) h = cc
  holds-Invited store (some (c ∷ s)) h =
      invited (λ q. cc) (knows-IsInvited api store listed_codes settings.secret (c ∷ s) base64 h)

  Invited-holds :
      (store : Text → Option ℕ) (cookie : Option Text)
      → Invited api settings cookie
      → holds_invite listed_codes (personal_with store) cookie ≡ true
  Invited-holds store none i = elim i [ ]
  Invited-holds store (some []) (invited ne i) = absurd (ne refl)
  Invited-holds store (some (c ∷ s)) (invited ne i) =
      IsInvited-knows api store listed_codes settings.secret (c ∷ s) base64 i

  try_code-opened :
      (list : List Text) (p : Option Personal) (to invite : Text)
      → try_code list p to invite ≢ opened
  try_code-opened list p to [] h = cc
  try_code-opened list none to (c ∷ s) h = elim (Bool-cases (member (c ∷ s) list)) [
    | inl e ↦ let h' : admit to (c ∷ s) ≡ opened = rw e at h in cc
    | inr e ↦ let h' : waitlist true ≡ opened = rw e at h in cc
  ]
  try_code-opened list (some p) to (c ∷ s) h = elim (Bool-cases (member (c ∷ s) list)) [
    | inl e ↦ let h' : admit to (c ∷ s) ≡ opened = rw e at h in cc
    | inr e ↦ elim (Bool-cases (p.exists_code (c ∷ s))) [
      | inl k ↦ let h' : admit to (p.sign (c ∷ s)) ≡ opened = rw (e, k) at h in cc
      | inr k ↦ let h' : waitlist true ≡ opened = rw (e, k) at h in cc
    ]
  ]

  -- The gate opens when it is off or the browser is invited.
  gate-opened :
      (store : Text → Option ℕ) (r : PageRequest)
      → waitlist_gated settings.mode ≡ true
      → gate_of api settings store r ≡ opened
      → Invited api settings r.cookie
  unfolding gate_for
  gate-opened store r on h =
      elim (Bool-cases (holds_invite listed_codes (personal_with store) r.cookie)) [
        | inl e ↦ holds-Invited store r.cookie e
        | inr e ↦ absurd (try_code-opened listed_codes (personal_with store) _ _ (rw (on, e) at h))
      ]

  gate-admit :
      (store : Text → Option ℕ) (r : PageRequest) (to cookie : Text)
      → gate_of api settings store r ≡ admit to cookie
      → Invited api settings (some cookie)
  unfolding gate_for
  gate-admit store r to cookie h = elim (Bool-cases (waitlist_gated settings.mode)) [
    | inl on ↦ elim (Bool-cases (holds_invite listed_codes (personal_with store) r.cookie)) [
      | inl e ↦ let h' : opened ≡ admit to cookie = rw (on, e) at h in cc
      | inr e ↦
          let (ne, i) =
            try_code-IsInvited api store _ settings.secret _ _ to cookie (rw (on, e) at h) in
          invited ne i
    ]
    | inr off ↦ let h' : opened ≡ admit to cookie = rw off at h in cc
  ]

  Invited-opens :
      (store : Text → Option ℕ) (r : PageRequest)
      → Invited api settings r.cookie
      → gate_of api settings store r ≡ opened
  unfolding gate_for
  Invited-opens store r i = elim (Bool-cases (waitlist_gated settings.mode)) [
    | inl on ↦ rw (on, Invited-holds store r.cookie i) refl
    | inr off ↦ rw off refl
  ]

  gated-Invited :
      (store : Text → Option ℕ) (r : PageRequest) (route : Route)
      → waitlist_gated settings.mode ≡ true
      → shows_page (gated_route route (gate_of api settings store r)) ≡ true
      → Invited api settings r.cookie
  gated-Invited store r route on h = go (gate_of api settings store r) refl h
    where
      go :
          (g : Gate)
          → gate_of api settings store r ≡ g
          → shows_page (gated_route route g) ≡ true
          → Invited api settings r.cookie
      go opened e h = gate-opened store r on e
      go (admit to cookie) e h = cc
      go (waitlist invalid) e h = cc

  gated-admitted :
      (store : Text → Option ℕ) (r : PageRequest) (route : Route) (to cookie : Text)
      → gated_route route (gate_of api settings store r) ≡ admitted to cookie
      → Invited api settings (some cookie)
  gated-admitted store r route to cookie h = go (gate_of api settings store r) refl h
    where
      routed-ne : (route : Route) → routed route ≢ admitted to cookie
      routed-ne next h = cc
      routed-ne (rewrite to) h = cc
      routed-ne (redirect host path query status) h = cc

      go :
          (g : Gate)
          → gate_of api settings store r ≡ g
          → gated_route route g ≡ admitted to cookie
          → Invited api settings (some cookie)
      go opened e h = absurd (routed-ne route h)
      go (admit to' cookie') e h =
          let q : cookie' ≡ cookie = cc in gate-admit store r to' cookie (rw e (rw q refl))
      go (waitlist invalid) e h = cc

  answer-Invited :
      (store : Text → Option ℕ) (r : PageRequest) (route : Route)
      → waitlist_gated settings.mode ≡ true
      → renders_app route r.pathname ≡ true
      → shows_page (answer_route api settings store r route) ≡ true
      → Invited api settings r.cookie
  answer-Invited store r (redirect host path query status) on app h = cc
  answer-Invited store r next on app h = gated-Invited store r next on (rw app at h)
  answer-Invited store r (rewrite to) on app h = gated-Invited store r (rewrite to) on (rw app at h)

  answer-admitted :
      (store : Text → Option ℕ) (r : PageRequest) (route : Route) (to cookie : Text)
      → answer_route api settings store r route ≡ admitted to cookie
      → Invited api settings (some cookie)
  answer-admitted store r (redirect host path query status) to cookie h = cc
  answer-admitted store r next to cookie h = elim (Bool-cases (renders_app next r.pathname)) [
    | inl e ↦ gated-admitted store r next to cookie (rw e at h)
    | inr e ↦ let h' : passed ≡ admitted to cookie = rw e at h in cc
  ]
  answer-admitted store r (rewrite t) to cookie h =
      elim (Bool-cases (renders_app (rewrite t) r.pathname)) [
        | inl e ↦ gated-admitted store r (rewrite t) to cookie (rw e at h)
        | inr e ↦ let h' : rewritten t ≡ admitted to cookie = rw e at h in cc
      ]

  Invited-answer :
      (store : Text → Option ℕ) (r : PageRequest) (route : Route)
      → Invited api settings r.cookie
      → answer_route api settings store r route ≡ routed route
  Invited-answer store r (redirect host path query status) i = refl
  Invited-answer store r next i = elim (Bool-cases (renders_app next r.pathname)) [
    | inl e ↦ rw (e, Invited-opens store r i) refl
    | inr e ↦ rw e refl
  ]
  Invited-answer store r (rewrite to) i = elim (Bool-cases (renders_app (rewrite to) r.pathname)) [
    | inl e ↦ rw (e, Invited-opens store r i) refl
    | inr e ↦ rw e refl
  ]

  -- While the waitlist is closed, a request that renders an app page gets the page only with a cookie that is a listed
  -- code, or a code signed with the secret. What base64 gives has only its own characters.
  pub proxy-Invited :
      (store : Text → Option ℕ) (r : PageRequest)
      → waitlist_gated settings.mode ≡ true
      → renders_app (route_for r.host r.pathname r.search) r.pathname ≡ true
      → shows_page (proxy api settings store r) ≡ true
      → Invited api settings r.cookie
  unfolding proxy
  proxy-Invited store r on app h =
      answer-Invited store r (route_for r.host r.pathname r.search) on app h

  -- With the cookie that an admission sets, any later request is answered as if there were no waitlist, whatever the
  -- store holds then, while codes and secret stay. What base64 gives has only its own characters.
  pub admitted-routed :
      (store later : Text → Option ℕ) (r r' : PageRequest) (to cookie : Text)
      → proxy api settings store r ≡ admitted to cookie
      → r'.cookie ≡ some cookie
      → proxy api settings later r' ≡ routed (route_for r'.host r'.pathname r'.search)
  unfolding proxy
  admitted-routed store later r r' to cookie h same =
      Invited-answer later r' (route_for r'.host r'.pathname r'.search)
        (rw same (answer-admitted store r (route_for r.host r.pathname r.search) to cookie h))
