-- ===== src/Chat.antt =====
-- web/lib/chat/reducer.ts: the Autopilot chat as one state machine. The rules of a draft are opaque
-- to it, so they are a type parameter. Texts are lists of code units, since `trim` looks into them.
pub mod Laws
mod Tests
use koul.Base.{
  ℕ, zero, suc, ◌+◌, Bool, true, false, not, ◌&&◌, ◌||◌, Option, none, some, List, [], ◌∷◌, ◌++◌,
  ◌==◌, ltb, Text, truthy, codes, trim, length, drop_last, last, if◌then◌else◌, or_else, is_some,
}

pub data Phase : Type 0 where
  idle sending clarify draft unsupported error : Phase

pub data Role : Type 0 where
  user koul_role : Role

pub data ReplyKind : Type 0 where
  draft_reply clarify_reply unsupported_reply : ReplyKind

pub record Message (R : Type 0) : Type 0 where
  pub role : Role
  pub text : Text
  pub rules : Option (List R)
  pub position : Option ℕ
  pub pending : Option R

pub record Draft (R : Type 0) : Type 0 where
  pub rules : List R
  pub position : ℕ

pub record Reply (R : Type 0) : Type 0 where
  pub kind : ReplyKind
  pub message : Text
  pub rules : Option (List R)
  pub position : Option ℕ
  pub choices : Option (List Text)
  pub pending : Option R

pub record ChatState (R : Type 0) : Type 0 where
  pub phase : Phase
  pub input : Text
  pub messages : List (Message R)
  pub choices : List Text
  pub draft : Option (Draft R)
  pub error : Option Text
  pub last_sent : Option Text
  pub note : Option Text
  pub request_id : ℕ

pub data ChatAction (R : Type 0) : Type 0 where
  input : (text : Text) → ChatAction R
  send : (text : Option Text) → ChatAction R
  reply : (id : ℕ) (reply : Reply R) → ChatAction R
  fail : (id : ℕ) (message : Text) → ChatAction R
  timeout : (id : ℕ) → ChatAction R
  abort : ChatAction R
  retry : ChatAction R
  discard : ChatAction R
  accept : (note : Option Text) → ChatAction R
  note : (note : Option Text) → ChatAction R

abbrev pub is_sending : Phase → Bool
is_sending sending = true
is_sending _ = false

abbrev pub is_error : Phase → Bool
is_error error = true
is_error _ = false

abbrev pub has_failed : Phase → Bool
has_failed unsupported = true
has_failed error = true
has_failed _ = false

abbrev pub is_user : Role → Bool
is_user user = true
is_user koul_role = false

abbrev pub too_long : Text
too_long = codes "Koul took too long to answer"

module _ {R : Type 0} where
  abbrev pub initial_state : ChatState R
  initial_state = record {
    phase = idle;
    input = [];
    messages = [];
    choices = [];
    draft = none;
    error = none;
    last_sent = none;
    note = none;
    request_id = 0;
  }

  unfoldable pub can_send : ChatState R → Text → Bool
  can_send s text = not (is_sending s.phase) && ltb 0 (length (trim text))

  -- `messages.filter((m, i) => !(i === messages.length - 1 && m.role === "user"))`
  unfoldable pub without_last_user : List (Message R) → List (Message R)
  without_last_user [] = []
  without_last_user (m ∷ []) = if is_user m.role then [] else m ∷ []
  without_last_user (m ∷ n ∷ ms) = m ∷ without_last_user (n ∷ ms)

  abbrev pub said : Role → Text → Message R
  said role text = record {
    role = role;
    text = text;
    rules = none;
    position = none;
    pending = none;
  }

  -- A user turn replaces one that was unsupported or failed.
  unfoldable pub turns_before : ChatState R → List (Message R)
  turns_before s = if has_failed s.phase then without_last_user s.messages else s.messages

  unfoldable pub send_text : ChatState R → Option Text → ChatState R
  unfolding can_send turns_before
  send_text s given =
      let text = trim (or_else given s.input) in
      if can_send s text
      then record s {
        phase = sending;
        input = [];
        messages = turns_before s ++ said user text ∷ [];
        choices = [];
        error = none;
        note = none;
        last_sent = some text;
        request_id = s.request_id + 1;
      }
      else s

  -- A draft needs both its rules and its position.
  abbrev pub draft_of : Option (List R) → Option ℕ → Option (Draft R)
  draft_of none p = none
  draft_of (some rs) none = none
  draft_of (some rs) (some p) = some (record { rules = rs; position = p })

  abbrev pub show_draft : ChatState R → Reply R → Draft R → ChatState R
  show_draft s r d = record s {
    phase = draft;
    messages =
        s.messages
        ++ record {
          role = koul_role;
          text = r.message;
          rules = some d.rules;
          position = some d.position;
          pending = none;
        }
          ∷ [];
    draft = some d;
    choices = [];
    error = none;
  }

  abbrev pub ask_detail : ChatState R → Reply R → ChatState R
  ask_detail s r = record s {
    phase = clarify;
    messages = s.messages ++ record (said koul_role r.message) { pending = r.pending } ∷ [];
    choices = or_else r.choices [];
    draft = none;
    error = none;
  }

  abbrev pub refuse : ChatState R → Reply R → ChatState R
  refuse s r = record s {
    phase = unsupported;
    messages = s.messages ++ said koul_role r.message ∷ [];
    choices = [];
    draft = none;
    error = none;
    input = or_else s.last_sent [];
  }

  abbrev pub answer_draft : ChatState R → Reply R → Option (Draft R) → ChatState R
  answer_draft s r none = refuse s r
  answer_draft s r (some d) = show_draft s r d

  abbrev pub answer : ChatState R → Reply R → ReplyKind → ChatState R
  answer s r draft_reply = answer_draft s r (draft_of r.rules r.position)
  answer s r clarify_reply = ask_detail s r
  answer s r unsupported_reply = refuse s r

  -- A reply, failure or timeout counts only while its own request is out.
  abbrev pub is_current : ChatState R → ℕ → Bool
  is_current s id = (id == s.request_id) && is_sending s.phase

  abbrev pub stop_with : ChatState R → Text → ChatState R
  stop_with s message = record s {
    phase = error;
    error = some message;
    input = or_else s.last_sent [];
  }

  -- The phase that a conversation is in when its last message is `m`.
  abbrev pub phase_after : Option (Message R) → Phase
  phase_after none = idle
  phase_after (some m) =
      if is_some m.rules then draft else if is_some m.pending then clarify else idle

  abbrev pub draft_after : Option (Message R) → Option (Draft R)
  draft_after none = none
  draft_after (some m) = draft_of m.rules m.position

  unfoldable pub abort_request : ChatState R → ChatState R
  abort_request s =
      let messages = drop_last s.messages in
      if is_sending s.phase
      then record s {
        phase = phase_after (last messages);
        messages = messages;
        input = or_else s.last_sent [];
        request_id = s.request_id + 1;
        draft = draft_after (last messages);
      }
      else s

  abbrev pub retried : ChatState R → ChatState R
  retried s = record s { phase = idle; error = none; messages = without_last_user s.messages }

  unfoldable pub chat_reducer : ChatState R → ChatAction R → ChatState R
  unfolding send_text abort_request without_last_user
  chat_reducer s (input text) = record s { input = text }
  chat_reducer s (send text) = send_text s text
  chat_reducer s (reply id r) = if is_current s id then answer s r r.kind else s
  chat_reducer s (fail id message) = if is_current s id then stop_with s message else s
  chat_reducer s (timeout id) = if is_current s id then stop_with s too_long else s
  chat_reducer s abort = abort_request s
  chat_reducer s retry =
      if is_error s.phase && truthy s.last_sent then send_text (retried s) s.last_sent else s
  chat_reducer s discard = record initial_state { request_id = s.request_id + 1 }
  chat_reducer s (accept text) = record initial_state { request_id = s.request_id + 1; note = text }
  chat_reducer s (note text) = record s { note = text }

  -- The page dispatches actions one after another.
  unfoldable pub dispatch_all : ChatState R → List (ChatAction R) → ChatState R
  dispatch_all s [] = s
  dispatch_all s (a ∷ as_) = dispatch_all (chat_reducer s a) as_
