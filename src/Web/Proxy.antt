-- ===== src/Web/Proxy.antt =====
-- web/proxy.ts: what a page request is answered, from the routes of web/lib/app-host.ts and the gate.
pub mod Laws
use koul.Base.{none, some, false, codes, text_eq, ◌||◌, ℕ, Bool, Option, List, Text, if◌then◌else◌}
use koul.Web.Routing.{Route, next, rewrite, redirect, route_for, renders_app}
use koul.Web.Invites.{WebApi, GateInput, Gate, opened, admit, waitlist, gate_for, personal_of}

-- `MODE === text`
abbrev pub is_mode : Text → Option Text → Bool
is_mode t none = false
is_mode t (some mode) = text_eq mode t

unfoldable pub waitlist_on : Option Text → Bool
waitlist_on mode =
    is_mode (codes "open") mode || is_mode (codes "closed") mode || is_mode (codes "1") mode

unfoldable pub waitlist_gated : Option Text → Bool
waitlist_gated mode = is_mode (codes "closed") mode || is_mode (codes "1") mode

-- The environment's waitlist switch, codes and secret
pub record Settings : Type 0 where
  pub mode : Option Text
  pub invite_codes : Option Text
  pub secret : Option Text

pub record PageRequest : Type 0 where
  pub host : Text
  pub pathname : Text
  pub search : Text
  pub cookie : Option Text

pub data Answer : Type 0 where
  passed : Answer
  rewritten : (to : Text) → Answer
  redirected : (host : Option Text) (path search : Text) (status : ℕ) → Answer
  shows_waitlist : (invalid : Bool) → Answer
  admitted : (to cookie : Text) → Answer

abbrev pub routed : Route → Answer
routed next = passed
routed (rewrite to) = rewritten to
routed (redirect host path search status) = redirected host path search status

abbrev pub gated_route : Route → Gate → Answer
gated_route route opened = routed route
gated_route route (waitlist invalid) = shows_waitlist invalid
gated_route route (admit to cookie) = admitted to cookie

module _ (api : WebApi) (settings : Settings) (store : Text → Option ℕ) where
  abbrev pub gate_of : PageRequest → Gate
  gate_of r = gate_for api r.pathname r.search (record {
    on = waitlist_gated settings.mode;
    invite_codes = settings.invite_codes;
    cookie = r.cookie;
    personal = personal_of api store settings.secret;
  })

  abbrev pub answer_route : PageRequest → Route → Answer
  answer_route r (redirect host path search status) = redirected host path search status
  answer_route r next =
      if renders_app next r.pathname then gated_route next (gate_of r) else routed next
  answer_route r (rewrite to) =
      if renders_app (rewrite to) r.pathname
      then gated_route (rewrite to) (gate_of r)
      else routed (rewrite to)

  unfoldable pub proxy : PageRequest → Answer
  proxy r = answer_route r (route_for r.host r.pathname r.search)
