-- ===== src/Web/Routing/Laws.antt =====
-- web/lib/app-host.ts: redirects end, and links lead back.
use koul.Base.{
  ℕ, zero, suc, ◌-◌, ◌≤◌, ◌<◌, Bool, true, false, ◌||◌, Option, none, some, [], ◌∷◌, ◌++◌, Text,
  codes, length, text_eq, text_eq_iff, starts_with, drop, member, if◌then◌else◌, ◌≡◌, ◌==◌, refl,
  ap, arith, Bool-cases, Option-cases, inl, inr,
}
use koul.Web.Routing.{
  app_host, landing_hosts, Route, next, rewrite, redirect, host_name, is_app_host, is_app_page,
  under_app, on_app_host, app_path, on_other_host, route_for, app_href_for, app_path_for,
  app_base_for,
}

abbrev pub new_host : Text → Option Text → Text
new_host host none = host
new_host host (some other) = other

-- A location that begins with two slashes names another host, and is not followed.
abbrev pub leaves : Option Text → Text → Bool
leaves none path = starts_with (codes "//") path
leaves (some other) path = false

abbrev pub go_on : (Text → Text → Text → Route) → Text → Route → Route
go_on more host next = next
go_on more host (rewrite to) = rewrite to
go_on more host (redirect to path search status) =
    if leaves to path then next else more (new_host host to) path search

-- The browser following redirects, at most so many
unfoldable pub follow : ℕ → (host path search : Text) → Route
follow zero host path search = route_for host path search
follow (suc n) host path search =
    let more = follow n in go_on more host (route_for host path search)

abbrev pub is_redirect : Route → Bool
is_redirect (redirect host path search status) = true
is_redirect _ = false

length-drop : (n : ℕ) (s : Text) → length (drop n s) ≡ length s - n
length-drop zero s = omega arith
length-drop (suc n) [] = omega arith
length-drop (suc n) (c ∷ s) = omega (arith, length-drop n s)

starts_with-length : (p s : Text) → starts_with p s ≡ true → length p ≤ length s
starts_with-length [] s h = omega arith
starts_with-length (c ∷ p) [] h = cc
starts_with-length (c ∷ p) (d ∷ s) h = omega (arith, starts_with-length p s (ground arith))

-- What is left under /app is shorter.
under_app-shorter : (path p : Text) → under_app path ≡ some p → length p < length path
unfolding under_app
under_app-shorter path p h = elim (Bool-cases (text_eq path (codes "/app"))) [
  | inl e ↦
      let whole : path ≡ codes "/app" = (text_eq_iff path (codes "/app")).0 e in
      let h' : some (codes "/") ≡ some p = rw e at h in
      let q : codes "/" ≡ p = cc in rw (whole, ← q) (omega arith)
  | inr e ↦ elim (Bool-cases (starts_with (codes "/app/") path)) [
    | inl s ↦
        let h' : some (drop 4 path) ≡ some p = rw (e, s) at h in
        let q : drop 4 path ≡ p = cc in
        omega (
          arith,
          starts_with-length (codes "/app/") path s,
          length-drop 4 path,
          ap (λ t. length {A = ℕ} t) q,
        )
    | inr s ↦ let h' : none ≡ some p = rw (e, s) at h in cc
  ]
]

stays :
    (more : Text → Text → Text → Route) (host : Text) (r : Route)
    → is_redirect r ≡ false
    → is_redirect (go_on more host r) ≡ false
stays more host next h = refl
stays more host (rewrite to) h = refl
stays more host (redirect to path search status) h = cc

goes :
    (more : Text → Text → Text → Route) (host : Text) (to : Option Text) (path search : Text)
    → (status : ℕ) → is_redirect (more (new_host host to) path search) ≡ false
    → is_redirect (go_on more host (redirect to path search status)) ≡ false
goes more host to path search status h = elim (Bool-cases (leaves to path)) [
  | inl e ↦ rw e refl
  | inr e ↦ rw e h
]

follow-stays :
    (n : ℕ) (host path search : Text)
    → is_redirect (route_for host path search) ≡ false
    → is_redirect (follow n host path search) ≡ false
unfolding follow
follow-stays zero host path search h = h
follow-stays (suc n) host path search h = stays (follow n) host (route_for host path search) h

on_app_host-none : (path search : Text) → is_redirect (on_app_host path search none) ≡ false
on_app_host-none path search = elim (Bool-cases (text_eq path (codes "/") || is_app_page path)) [
  | inl e ↦ rw e refl
  | inr e ↦ rw e refl
]

-- On the app's own host every redirect shortens the path.
follow-app :
    (n : ℕ) (host path search : Text)
    → is_app_host (host_name host) ≡ true
    → length path < n
    → is_redirect (follow n host path search) ≡ false
unfolding follow route_for
follow-app zero host path search app h = absurd (omega arith)
follow-app (suc n) host path search app h = elim (Option-cases (under_app path)) [
  | inl e ↦
      rw (app, e)
        (stays (follow n) host (on_app_host path search none) (on_app_host-none path search))
  | inr (p, e) ↦
      rw (app, e)
        (goes (follow n) host none p search 308
          (follow-app n host p search app (omega (arith, h, under_app-shorter path p e))))
]

pages-apart : (path : Text) → is_app_page (codes "/app" ++ path) ≡ false
unfolding is_app_page text_eq
pages-apart path = refl

apart-stays :
    (name path search : Text) (o : Option Text)
    → member name landing_hosts ≡ false
    → is_app_page path ≡ false
    → is_redirect (on_other_host name path search o) ≡ false
apart-stays name path search none h k = refl
apart-stays name path search (some p) h k = rw (h, k) refl

app_path-le : (path p : Text) → app_path path (under_app path) ≡ some p → length p ≤ length path
app_path-le path p h = elim (Option-cases (under_app path)) [
  | inl e ↦ elim (Bool-cases (is_app_page path)) [
    | inl k ↦
        let h' : some path ≡ some p = rw (e, k) at h in
        let q : path ≡ p = cc in omega (arith, ap (λ t. length {A = ℕ} t) q)
    | inr k ↦ let h' : none ≡ some p = rw (e, k) at h in cc
  ]
  | inr (t, e) ↦
      let h' : some t ≡ some p = rw e at h in
      let q : t ≡ p = cc in omega (arith, under_app-shorter path t e, ap (λ x. length {A = ℕ} x) q)
]

follow-other :
    (host path search : Text) (o : Option Text)
    → is_app_host (host_name host) ≡ false
    → ((p : Text) → o ≡ some p → length p ≤ length path)
    → is_redirect
        (go_on (follow (suc (length path))) host (on_other_host (host_name host) path search o))
      ≡ false
follow-other host path search none other h = refl
follow-other host path search (some p) other h =
    elim (Bool-cases (member (host_name host) landing_hosts)) [
      | inl e ↦ rw e (
          goes (follow (suc (length path))) host (some app_host) p search 308 (
            follow-app (suc (length path)) app_host p search app_host-app
              (omega (arith, h p refl))))
      | inr e ↦ elim (Bool-cases (is_app_page path)) [
        | inl k ↦
            rw (e, k)
              (goes (follow (suc (length path))) host none (codes "/app" ++ path) search 307 (
                follow-stays (suc (length path)) host (codes "/app" ++ path) search (
                  unfold route_for in
                  (rw other (
                    apart-stays (host_name host) (codes "/app" ++ path) search
                      (app_path (codes "/app" ++ path) (under_app (codes "/app" ++ path))) e
                      (pages-apart path))))))
        | inr k ↦ rw (e, k) refl
      ]
    ]
  where
    app_host-app : is_app_host (host_name app_host) ≡ true
    app_host-app = unfold is_app_host in unfold host_name in refl

-- A browser that follows the redirects of a site comes to a page that is none, on every host, after at most two
-- more than the path is long. A location that begins with two slashes is taken to leave the site.
pub follow-ends :
    (host path search : Text)
    → is_redirect (follow (suc (suc (length path))) host path search) ≡ false
follow-ends host path search = elim (Bool-cases (is_app_host (host_name host))) [
  | inl e ↦ follow-app (suc (suc (length path))) host path search e (omega arith)
  | inr e ↦
      unfold follow in
      unfold route_for in
      (rw e (follow-other host path search (app_path path (under_app path)) e (app_path-le path)))
]

starts_with-append : (p s : Text) → starts_with p (p ++ s) ≡ true
starts_with-append [] s = refl
starts_with-append (c ∷ p) s = let ih = starts_with-append p s in ground arith

-- What a browser's pathname holds of a path: all before a query or a fragment
unfoldable pub pathname_of : Text → Text
pathname_of [] = []
pathname_of (c ∷ s) =
    let rest = c ∷ pathname_of s in if (c == b'?') || (c == b'#') then [] else rest

-- A link to an app path, read back from the browser's pathname, is the pathname of that path, whichever
-- host shows it.
pub app_path_for-app_href_for :
    (host rest : Text)
    → let base = app_base_for host in
      app_path_for base (pathname_of (app_href_for base (b'/' ∷ rest))) ≡ pathname_of (b'/' ∷ rest)
unfolding app_base_for pathname_of
app_path_for-app_href_for host rest = elim (Bool-cases (is_app_host host)) [
  | inl e ↦ rw e (unfold app_path_for in unfold app_href_for in refl)
  | inr e ↦ rw e (under rest)
]
  where
    under :
        (t : Text)
        → app_path_for (codes "/app") (pathname_of (app_href_for (codes "/app") (b'/' ∷ t)))
          ≡ pathname_of (b'/' ∷ t)
    under [] = unfold app_path_for in unfold app_href_for in unfold text_eq in refl
    under (c ∷ t) = unfold app_path_for in unfold app_href_for in unfold text_eq in refl
