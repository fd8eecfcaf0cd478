-- ===== src/Web/Tests.antt =====
-- The laws of routes and invites on concrete requests.
use koul.Base.{
  ◌↔◌, ℕ, ◌≡◌, refl, true, false, Option, none, some, [], ◌∷◌, Text, codes, text_eq, trim, member,
  ◌+◌, ◌≤◌, ◌==◌, inr, arith,
}
use koul.Web.Routing.{
  rewrite, is_app_host, is_app_page, host_name, under_app, route_for, app_base_for, app_href_for,
  app_path_for, renders_app,
}
use koul.Web.Routing.Laws.{follow, is_redirect, follow-ends, pathname_of, app_path_for-app_href_for}
use koul.Web.Invites.{
  WebApi, words_from, parse_invite_codes, sign_invite, hmac, strip_equals, gate_for, personal_of,
  personal_code_exists, verify_invite, last_dot, same_string,
}
use koul.Web.Proxy.{Settings, PageRequest, admitted, routed, waitlist_gated, proxy}
use koul.Web.Proxy.Laws.{Invited, shows_page, proxy-Invited, admitted-routed}
use koul.Web.Relay.{
  sent, told, accepted, Relay, lock_first, lock_until, lock_channel, attempts, submit_sponsored,
  lock_ms, lock_rounds,
}
use koul.Web.Relay.Laws.{sends, failures_told, IsTold, submit_sponsored_lem}
use koul.Web.Relay.Waits.{IsClock, lock_rounds_enough}
use koul.Core.Decimal.{to_text, print}
use koul.Web.Limits.{chat, checks, Refusal, Limiter, check_all, rate_limit}
use koul.Web.Limits.Laws.{Refuses, rate_limit_iff}

follow-ends_example :
    is_redirect (follow 12 (codes "koul.me") (codes "/autopilot") (codes "?load=x")) ≡ false
follow-ends_example = follow-ends (codes "koul.me") (codes "/autopilot") (codes "?load=x")

app_path_for-app_href_for_example :
    app_path_for (app_base_for (codes "localhost:3000")) (
      pathname_of
        (app_href_for (app_base_for (codes "localhost:3000")) (codes "/autopilot?load=x")))
    ≡ pathname_of (codes "/autopilot?load=x")
app_path_for-app_href_for_example =
    app_path_for-app_href_for (codes "localhost:3000") (codes "autopilot?load=x")

-- A signature that is the same for all texts
abbrev api : WebApi
api = record {
  lower = λ t. t;
  base64_mac = λ message secret. codes "q+8=";
  query = λ search. (codes "invite", codes "inv-7") ∷ [];
  print_query = λ params. [];
}

abbrev settings : Settings
settings = record {
  mode = some (codes "closed");
  invite_codes = some (codes "team-1, beta-2");
  secret = some (codes "s");
}

abbrev store : Text → Option ℕ
store key = some 1

abbrev first_visit : PageRequest
first_visit = record {
  host = codes "app.koul.me";
  pathname = codes "/join";
  search = codes "?invite=inv-7";
  cookie = none;
}

abbrev second_visit : PageRequest
second_visit = record first_visit { cookie = some (codes "inv-7.q-8") }

abbrev no_store : Text → Option ℕ
no_store key = none

gated : waitlist_gated settings.mode ≡ true
unfolding waitlist_gated text_eq
gated = refl

proxy_first : proxy api settings store first_visit ≡ admitted (codes "/join") (codes "inv-7.q-8")
unfolding proxy waitlist_gated gate_for route_for host_name is_app_host is_app_page under_app
    text_eq renders_app personal_of sign_invite hmac strip_equals words_from parse_invite_codes
    personal_code_exists trim member
proxy_first = refl

join_route :
    route_for (codes "app.koul.me") (codes "/join") (codes "?invite=inv-7")
    ≡ rewrite (codes "/app/join?invite=inv-7")
unfolding route_for host_name is_app_host is_app_page under_app text_eq
join_route = refl

joins_app : renders_app (rewrite (codes "/app/join?invite=inv-7")) (codes "/join") ≡ true
unfolding renders_app
joins_app = refl

admitted-routed_example :
    proxy api settings no_store second_visit
    ≡ routed (route_for (codes "app.koul.me") (codes "/join") (codes "?invite=inv-7"))
admitted-routed_example =
    admitted-routed api settings (λ secret message. refl) store no_store first_visit second_visit
      (codes "/join") (codes "inv-7.q-8") proxy_first refl

shows_second : shows_page (proxy api settings no_store second_visit) ≡ true
unfolding proxy waitlist_gated gate_for route_for host_name is_app_host is_app_page under_app
    text_eq renders_app personal_of words_from parse_invite_codes trim member verify_invite last_dot
    same_string hmac strip_equals
shows_second = refl

proxy-Invited_example : Invited api settings (some (codes "inv-7.q-8"))
proxy-Invited_example =
    proxy-Invited api settings (λ secret message. refl) no_store second_visit gated
      (rw join_route joins_app) shows_second

-- The second try is told to be on the ledger.
abbrev relay : Relay
relay = record {
  W = ℕ;
  now = λ w. w;
  has_store = true;
  channels = 2;
  shuffled = λ order w. (order, w);
  set_channel = λ i w. (inr true, w);
  sleep = λ ms w. w + ms;
  account = λ channel w. (true, w);
  send = λ channel w. (accepted (codes "h"), w + 1);
  poll = λ hash w. (inr (w == 1), w);
}

sends_twice : submit_sponsored relay 0 ≡ (
  inr (codes "h"),
  record { log = sent ∷ told (codes "h") true ∷ sent ∷ told (codes "h") false ∷ []; world = 2 },
)
unfolding submit_sponsored attempts lock_channel lock_until lock_first
sends_twice = refl

submit_sponsored_lem_example :
    let out = submit_sponsored relay 0 in
    (sends out.1.log ≤ 8) × (failures_told out.1.log ≤ 3) × IsTold out.0 out.1.log
submit_sponsored_lem_example = submit_sponsored_lem relay 0

relay-IsClock : IsClock relay
relay-IsClock = record {
  set_later = λ i w. omega arith;
  shuffled_later = λ order w. omega arith;
  waits = λ ms w. omega arith;
}

lock_rounds_enough_example :
    lock_until relay 40 (5 + lock_ms) (1 ∷ []) 5
    ≡ lock_until relay lock_rounds (5 + lock_ms) (1 ∷ []) 5
lock_rounds_enough_example = lock_rounds_enough relay relay-IsClock 40 (1 ∷ []) 5 (omega arith)

-- The time is 1000, and the window of every check is used up until 4500.
abbrev used_up : Limiter
used_up = record { W = ℕ; has_store = true; limit = λ c w. (some (false, 4500), w); now = λ w. w }

abbrev refused_chat : Refusal
refused_chat = record {
  error = codes "Too many requests. Try again in 4 seconds. The limit is 60 per minute.";
  retry = 4;
}

chat_refused : (rate_limit used_up chat (codes "1.2.3.4") none 1000).0 ≡ some refused_chat
unfolding rate_limit check_all checks to_text print
chat_refused = refl

rate_limit_iff_example :
    ((rate_limit used_up chat (codes "1.2.3.4") none 1000).0 ≡ some refused_chat) ↔ (
      (used_up.has_store ≡ true)
      × Refuses used_up (checks chat (codes "1.2.3.4") none) 1000 refused_chat)
rate_limit_iff_example = rate_limit_iff used_up chat (codes "1.2.3.4") none 1000 refused_chat
