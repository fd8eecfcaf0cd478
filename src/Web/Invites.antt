-- ===== src/Web/Invites.antt =====
-- web/lib/invite.ts, `gateFor` of web/lib/app-host.ts and `personal` of web/proxy.ts: who sees the app while the
-- waitlist is on. What the browser's and the server's libraries do is `WebApi`: the lower case of a text, base64 of
-- an HMAC, and the parsing and printing of a query.
pub mod Laws
pub mod Admission
use koul.Base.{
  ℕ, Bool, true, false, not, ◌&&◌, ◌||◌, ◌==◌, Option, none, some, List, [], ◌∷◌, ◌++◌, map, keep,
  length, or_else, if◌then◌else◌, Text, codes, is_space, trim, text_eq, starts_with, member, is_nil,
}

pub record WebApi : Type 0 where
  pub lower : Text → Text
  -- the message, then the secret
  pub base64_mac : Text → Text → Text
  pub query : Text → List (Text × Text)
  pub print_query : List (Text × Text) → Text

-- `.split(/[\s,]+/).filter(Boolean)`; `word` is the piece read so far.
unfoldable pub words_from : (word : Text) → Text → List Text
words_from word [] = if is_nil word then [] else word ∷ []
words_from word (c ∷ s) =
    let ended = words_from [] s in
    let longer = words_from (word ++ c ∷ []) s in
    if is_space c || (c == b',') then (if is_nil word then ended else word ∷ ended) else longer

-- `.replace(/\+/g, "-").replace(/\//g, "_")`
abbrev pub url_char : ℕ → ℕ
url_char c = if c == b'+' then b'-' else if c == b'/' then b'_' else c

abbrev pub before_end : ℕ → Text → Text
before_end c [] = if c == b'=' then [] else c ∷ []
before_end c (d ∷ s) = c ∷ d ∷ s

-- `.replace(/=+$/, "")`
unfoldable pub strip_equals : Text → Text
strip_equals [] = []
strip_equals (c ∷ s) = before_end c (strip_equals s)

-- Whether the `diff` of `sameString` is other than 0
abbrev pub diff_from : Bool → Text → Text → Bool
diff_from seen [] b = seen
diff_from seen (c ∷ a) [] = seen
diff_from seen (c ∷ a) (d ∷ b) = diff_from (seen || not (c == d)) a b

unfoldable pub same_string : Text → Text → Bool
same_string a b = if length a == length b then not (diff_from false a b) else false

abbrev pub after_char : ℕ → Text → Option (Text × Text) → Option (Text × Text)
after_char c s (some (before, after)) = some (c ∷ before, after)
after_char c s none = if c == b'.' then some ([], s) else none

-- What stands before and after the last dot: `lastIndexOf(".")` and the slices there
unfoldable pub last_dot : Text → Option (Text × Text)
last_dot [] = none
last_dot (c ∷ s) = after_char c s (last_dot s)

abbrev pub value_of : Text → List (Text × Text) → Option Text
value_of name [] = none
value_of name ((key, v) ∷ params) = if text_eq name key then some v else value_of name params

pub record Personal : Type 0 where
  pub verify : Text → Bool
  pub exists_code : Text → Bool
  pub sign : Text → Text

pub record GateInput : Type 0 where
  pub on : Bool
  pub invite_codes : Option Text
  pub cookie : Option Text
  pub personal : Option Personal

pub data Gate : Type 0 where
  opened : Gate
  admit : (to cookie : Text) → Gate
  waitlist : (invalid : Bool) → Gate

-- `codes.includes(cookie) || personal?.verify(cookie)`
abbrev pub knows : List Text → Option Personal → Text → Bool
knows list none cookie = member cookie list
knows list (some p) cookie = member cookie list || p.verify cookie

abbrev pub holds_invite : List Text → Option Personal → Option Text → Bool
holds_invite list p none = false
holds_invite list p (some []) = false
holds_invite list p (some (c ∷ s)) = knows list p (c ∷ s)

abbrev pub try_personal : Option Personal → (to invite : Text) → Gate
try_personal none to invite = waitlist true
try_personal (some p) to invite =
    if p.exists_code invite then admit to (p.sign invite) else waitlist true

abbrev pub try_code : List Text → Option Personal → (to invite : Text) → Gate
try_code list p to [] = waitlist false
try_code list p to (c ∷ s) =
    if member (c ∷ s) list then admit to (c ∷ s) else try_personal p to (c ∷ s)

module _ (api : WebApi) where
  unfoldable pub parse_invite_codes : Option Text → List Text
  parse_invite_codes raw = words_from [] (api.lower (or_else raw []))

  unfoldable pub hmac : (message secret : Text) → Text
  hmac message secret = strip_equals (map url_char (api.base64_mac message secret))

  unfoldable pub sign_invite : (code secret : Text) → Text
  sign_invite code secret = code ++ b'.' ∷ hmac (codes "invite:" ++ code) secret

  abbrev pub approve_signature : (email secret : Text) → Text
  approve_signature email secret = hmac (codes "approve:" ++ email) secret

  abbrev pub verify_parts : Text → Option (Text × Text) → Bool
  verify_parts secret none = false
  verify_parts secret (some ([], after)) = false
  verify_parts secret (some (c ∷ before, after)) =
      same_string after (hmac (codes "invite:" ++ c ∷ before) secret)

  unfoldable pub verify_invite : (cookie secret : Text) → Bool
  verify_invite cookie secret = verify_parts secret (last_dot cookie)

  abbrev pub without : List (Text × Text) → Text
  without params = api.print_query (keep (λ p. not (text_eq (codes "invite") p.0)) params)

  abbrev pub back_to : Text → Text → Text
  back_to path rest = path ++ (if is_nil rest then [] else b'?' ∷ rest)

  abbrev pub with_params : Text → List (Text × Text) → List Text → Option Personal → Gate
  with_params path params list p =
      try_code list p (back_to path (without params))
        (api.lower (trim (or_else (value_of (codes "invite") params) [])))

  unfoldable pub gate_for : (path search : Text) → GateInput → Gate
  gate_for path search gate =
      let list = parse_invite_codes gate.invite_codes in
      if not gate.on
      then opened
      else if holds_invite list gate.personal gate.cookie
      then opened
      else with_params path (api.query search) list gate.personal

-- The store's answer to `exists`, none without a store or when it fails
unfoldable pub personal_code_exists : (Text → Option ℕ) → Text → Bool
personal_code_exists store code =
    starts_with (codes "inv-") code && (or_else (store (codes "koul:invite:" ++ code)) 0 == 1)

-- `personal` of the proxy: off without a secret
unfoldable pub personal_of : WebApi → (Text → Option ℕ) → Option Text → Option Personal
personal_of api store none = none
personal_of api store (some []) = none
personal_of api store (some (c ∷ secret)) = some (record {
  verify = λ cookie. verify_invite api cookie (c ∷ secret);
  exists_code = λ code. personal_code_exists store code;
  sign = λ code. sign_invite api code (c ∷ secret);
})
