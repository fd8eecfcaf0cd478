-- ===== src/Chat/Tests.antt =====
-- The laws of the chat on concrete chats.
use koul.Base.{ℕ, ◌≡◌, refl, true, none, some, List, [], ◌∷◌, codes, trim, last}
use koul.Chat.{
  sending, draft_reply, Reply, ChatState, ChatAction, send, reply, timeout, abort, chat_reducer,
  dispatch_all, can_send, initial_state, phase_after,
}
use koul.Chat.Laws.{IsSound, dispatch_all-IsSound, late_reply, abort-send}

abbrev plan : Reply ℕ
plan = record {
  kind = draft_reply;
  message = codes "Done";
  rules = some (7 ∷ []);
  position = some 0;
  choices = none;
  pending = none;
}

abbrev busy : ChatState ℕ
busy = record {
  phase = sending;
  input = [];
  messages = [];
  choices = [];
  draft = none;
  error = none;
  last_sent = none;
  note = none;
  request_id = 4;
}

abbrev fresh : ChatState ℕ
fresh = initial_state

abbrev asked : List (ChatAction ℕ)
asked = send (some (codes " hi ")) ∷ reply 1 plan ∷ []

dispatch_all-IsSound_example : IsSound (dispatch_all fresh asked)
dispatch_all-IsSound_example = dispatch_all-IsSound asked

late_reply_example :
    let u = dispatch_all (chat_reducer busy abort) asked in
    (chat_reducer u (reply 4 plan) ≡ u) × (chat_reducer u (timeout 4) ≡ u)
late_reply_example = late_reply busy asked plan refl

can_hi : can_send fresh (trim (codes " hi ")) ≡ true
unfolding can_send trim
can_hi = refl

abort-send_example :
    let u = chat_reducer (chat_reducer fresh (send (some (codes " hi ")))) abort in
    (u.messages ≡ fresh.messages)
    × (u.input ≡ trim (codes " hi "))
    × (u.phase ≡ phase_after (last fresh.messages))
abort-send_example = abort-send fresh (codes " hi ") refl can_hi
