-- ===== src/Chat/Laws.antt =====
-- What the chat reducer guarantees.
mod Soundness
use koul.Base.{
  ℕ, ◌+◌, ◌≤◌, ◌<◌, ◌≡◌, ◌≢◌, refl, Bool, true, false, Option, none, some, List, [], ◌∷◌, ◌++◌,
  arith, Text, truthy, length, trim, or_else, drop_last, last, drop_last-append, last-append,
  is_some, if◌then◌else◌, All, All-append, Bool-cases, inl, inr, trim_start, ◌&&◌,
}
use koul.Chat.{
  sending, draft, user, Message, Draft, Reply, ChatState, ChatAction, input, send, reply, fail,
  timeout, abort, retry, discard, accept, note, can_send, is_sending, has_failed, send_text,
  chat_reducer, dispatch_all, without_last_user, abort_request, retried, turns_before, said,
  initial_state, is_current, draft_of, phase_after, draft_after, is_error, answer, answer_draft,
  ReplyKind, draft_reply, clarify_reply, unsupported_reply,
}
pub use koul.Chat.Laws.Soundness.{IsSound}
use koul.Chat.Laws.Soundness.{initial-IsSound, chat_reducer-IsSound}

module _ {R : Type 0} where
  request_id-chat_reducer :
      (s : ChatState R) (a : ChatAction R) → s.request_id ≤ (chat_reducer s a).request_id
  unfolding chat_reducer
  request_id-chat_reducer s (input text) = omega arith
  request_id-chat_reducer s (reply id r) = ground arith
  request_id-chat_reducer s _ = ground arith

  request_id-dispatch_all :
      (s : ChatState R) (as_ : List (ChatAction R)) → s.request_id ≤ (dispatch_all s as_).request_id
  unfolding dispatch_all
  request_id-dispatch_all s [] = omega arith
  request_id-dispatch_all s (a ∷ as_) =
      omega (arith, request_id-chat_reducer s a, request_id-dispatch_all (chat_reducer s a) as_)

  dispatch_all_from-IsSound :
      (s : ChatState R) (as_ : List (ChatAction R)) → IsSound s → IsSound (dispatch_all s as_)
  unfolding dispatch_all
  dispatch_all_from-IsSound s [] h = h
  dispatch_all_from-IsSound s (a ∷ as_) h =
      dispatch_all_from-IsSound (chat_reducer s a) as_ (chat_reducer-IsSound s a h)

  -- After any actions, in any order, from the initial state: every message that shows rules shows where
  -- they go; while a request is out, the conversation ends with the user's text, which is the text last
  -- sent and is not blank; and in the draft phase there is a draft, the one of the last message.
  pub dispatch_all-IsSound : (as_ : List (ChatAction R)) → IsSound (dispatch_all initial_state as_)
  dispatch_all-IsSound as_ = dispatch_all_from-IsSound initial_state as_ initial-IsSound

  stale_reply :
      (u : ChatState R) (id : ℕ) (r : Reply R)
      → id < u.request_id
      → (chat_reducer u (reply id r) ≡ u) × (chat_reducer u (timeout id) ≡ u)
  unfolding chat_reducer
  stale_reply u id r h = let e : is_current u id ≡ false = ground arith in (rw e, rw e)

  request_id-abort :
      (s : ChatState R) → s.phase ≡ sending → (chat_reducer s abort).request_id ≡ s.request_id + 1
  unfolding chat_reducer
  request_id-abort s e = rw e

  -- Once a request that is being sent has been aborted, its answer and its timeout change nothing,
  -- whatever happens before they come.
  pub late_reply :
      (s : ChatState R) (as_ : List (ChatAction R)) (r : Reply R)
      → s.phase ≡ sending
      → let u = dispatch_all (chat_reducer s abort) as_ in
        (chat_reducer u (reply s.request_id r) ≡ u) × (chat_reducer u (timeout s.request_id) ≡ u)
  late_reply s as_ r e =
      stale_reply (dispatch_all (chat_reducer s abort) as_) s.request_id r
        (omega (arith, request_id-abort s e, request_id-dispatch_all (chat_reducer s abort) as_))

  -- Aborting right after a send that was allowed, from a state that had not failed, takes the sent turn
  -- out again, puts its text back into the input, and returns to the phase that the last message calls for.
  pub abort-send :
      (s : ChatState R) (t : Text)
      → has_failed s.phase ≡ false
      → can_send s (trim t) ≡ true
      → let u = chat_reducer (chat_reducer s (send (some t))) abort in
        (u.messages ≡ s.messages) × (u.input ≡ trim t) × (u.phase ≡ phase_after (last s.messages))
  unfolding chat_reducer
  abort-send s t f c =
      let d : drop_last (s.messages ++ said user (trim t) ∷ []) ≡ s.messages =
        drop_last-append s.messages (said user (trim t)) in
      rw (c, send_text) (rw (f, turns_before) (rw d (refl, refl, refl)))
