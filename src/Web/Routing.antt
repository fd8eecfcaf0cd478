-- ===== src/Web/Routing.antt =====
-- web/lib/app-host.ts: where a request goes. A redirect keeps its path apart from its host and query; `location`
-- is the text of the source.
pub mod Laws
use koul.Base.{
  ℕ, zero, suc, Bool, true, false, not, ◌||◌, ◌==◌, Option, none, some, List, [], ◌∷◌, ◌++◌, any,
  Text, codes, text_eq, starts_with, drop, member, is_some, if◌then◌else◌,
}

abbrev pub app_host : Text
app_host = codes "app.koul.me"

abbrev pub landing_hosts : List Text
landing_hosts = codes "koul.me" ∷ codes "www.koul.me" ∷ []

abbrev pub app_pages : List Text
app_pages =
    codes "autopilot"
    ∷ codes "activity"
    ∷ codes "account"
    ∷ codes "deposit"
    ∷ codes "withdraw"
    ∷ codes "join"
    ∷ []

pub data Route : Type 0 where
  next : Route
  rewrite : (to : Text) → Route
  redirect : (host : Option Text) (path search : Text) (status : ℕ) → Route

abbrev pub location : Option Text → Text → Text → Text
location none path search = path ++ search
location (some host) path search = codes "https://" ++ (host ++ (path ++ search))

-- `host.split(":")[0]`
unfoldable pub host_name : Text → Text
host_name [] = []
host_name (c ∷ s) = let rest = c ∷ host_name s in if c == b':' then [] else rest

unfoldable pub is_app_host : Text → Bool
is_app_host host = starts_with (codes "app.") (host_name host)

unfoldable pub is_app_page : Text → Bool
is_app_page path =
    any (λ p. text_eq path (b'/' ∷ p) || starts_with (b'/' ∷ (p ++ b'/' ∷ [])) path) app_pages

unfoldable pub under_app : Text → Option Text
under_app path =
    if text_eq path (codes "/app")
    then some (codes "/")
    else if starts_with (codes "/app/") path
    then some (drop 4 path)
    else none

abbrev pub on_app_host : Text → Text → Option Text → Route
on_app_host path search (some stripped) = redirect none stripped search 308
on_app_host path search none =
    if text_eq path (codes "/") || is_app_page path
    then rewrite (codes "/app" ++ ((if text_eq path (codes "/") then [] else path) ++ search))
    else next

-- `underApp(path) ?? (isAppPage(path) ? path : null)`
abbrev pub app_path : Text → Option Text → Option Text
app_path path (some stripped) = some stripped
app_path path none = if is_app_page path then some path else none

abbrev pub on_other_host : Text → Text → Text → Option Text → Route
on_other_host name path search none = next
on_other_host name path search (some p) =
    if member name landing_hosts
    then redirect (some app_host) p search 308
    else if is_app_page path
    then redirect none (codes "/app" ++ path) search 307
    else next

unfoldable pub route_for : (host path search : Text) → Route
route_for host path search =
    if is_app_host (host_name host)
    then on_app_host path search (under_app path)
    else on_other_host (host_name host) path search (app_path path (under_app path))

unfoldable pub app_base_for : Text → Text
app_base_for host = if is_app_host host then [] else codes "/app"

abbrev pub href_under : Text → Text → Text
href_under [] path = path
href_under (c ∷ base) path = if text_eq path (codes "/") then c ∷ base else (c ∷ base) ++ path

unfoldable pub app_href_for : (base path : Text) → Text
app_href_for base path = href_under base path

abbrev pub or_slash : Text → Text
or_slash [] = codes "/"
or_slash (c ∷ s) = c ∷ s

abbrev pub size : Text → ℕ
size [] = 0
size (c ∷ s) = suc (size s)

abbrev pub path_under : Text → Text → Text
path_under [] pathname = pathname
path_under (c ∷ base) pathname =
    if text_eq pathname (c ∷ base) || starts_with ((c ∷ base) ++ b'/' ∷ []) pathname
    then or_slash (drop (size (c ∷ base)) pathname)
    else pathname

unfoldable pub app_path_for : (base pathname : Text) → Text
app_path_for base pathname = path_under base pathname

abbrev pub is_rewrite : Route → Bool
is_rewrite (rewrite to) = true
is_rewrite _ = false

unfoldable pub renders_app : Route → Text → Bool
renders_app route path = is_rewrite route || is_some (under_app path)
