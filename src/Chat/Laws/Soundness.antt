-- ===== src/Chat/Laws/Soundness.antt =====
-- web/lib/chat/reducer.ts: every action keeps the chat sound.
use koul.Base.{
  ◌<◌, ◌≡◌, ◌≢◌, refl, Bool, true, false, Option, none, some, List, [], ◌∷◌, ◌++◌, arith, Text,
  truthy, length, trim, or_else, drop_last, last, last-append, is_some, if◌then◌else◌, All,
  All-append, Bool-cases, inl, inr, trim_start, ◌&&◌,
}
use koul.Chat.{
  sending, draft, user, Message, Draft, Reply, ChatState, ChatAction, input, send, reply, fail,
  timeout, abort, retry, discard, accept, note, can_send, is_sending, has_failed, send_text,
  chat_reducer, without_last_user, abort_request, retried, turns_before, said, initial_state,
  is_current, draft_of, phase_after, draft_after, is_error, answer, answer_draft, ReplyKind,
  draft_reply, clarify_reply, unsupported_reply,
}

module _ {R : Type 0} where
  -- A message that shows rules shows where they go.
  abbrev pub IsPlaced : Message R → Type 0
  IsPlaced m = is_some m.rules ≡ is_some m.position

  -- While a request is out, the conversation ends with the user's text, which is the text last sent
  -- and is not blank; in the draft phase there is a draft, the one of the last message.
  pub record IsSound (s : ChatState R) : Type 0 where
    pub placed : All IsPlaced s.messages
    pub asked :
        s.phase ≡ sending
        → (t : Text) × (before : List (Message R)) × (s.messages ≡ before ++ said user t ∷ [])
          × (s.last_sent ≡ some t)
          × (0 < length t)
    pub shown : s.phase ≡ draft → (draft_after (last s.messages) ≡ s.draft) × (s.draft ≢ none)

  pub All-drop_last : (ms : List (Message R)) → All IsPlaced ms → All IsPlaced (drop_last ms)
  All-drop_last [] h = tt
  All-drop_last (m ∷ []) h = tt
  All-drop_last (m ∷ n ∷ ms) h = (h.0, All-drop_last (n ∷ ms) h.1)

  pub All-without_last_user :
      (ms : List (Message R)) → All IsPlaced ms → All IsPlaced (without_last_user ms)
  unfolding without_last_user
  All-without_last_user [] h = tt
  All-without_last_user (m ∷ []) h = ground arith
  All-without_last_user (m ∷ n ∷ ms) h = (h.0, All-without_last_user (n ∷ ms) h.1)

  pub last-IsPlaced :
      (ms : List (Message R)) {m : Message R} → All IsPlaced ms → last ms ≡ some m → IsPlaced m
  last-IsPlaced [] h e = cc
  last-IsPlaced (n ∷ []) h e = ground arith
  last-IsPlaced (n ∷ k ∷ ms) h e = last-IsPlaced (k ∷ ms) h.1 e

  pub initial-IsSound : IsSound initial_state
  initial-IsSound = record { placed = tt; asked = λ e. cc; shown = λ e. cc }

  pub if-IsSound :
      (b : Bool) (u s : ChatState R)
      → (b ≡ true → IsSound u)
      → IsSound s
      → IsSound (if b then u else s)
  if-IsSound true u s hu hs = hu refl
  if-IsSound false u s hu hs = hs

  pub sendable : (s : ChatState R) (t : Text) → can_send s t ≡ true → 0 < length t
  unfolding can_send trim trim_start
  sendable s [] h = ground arith
  sendable s (c ∷ t) h = omega arith

  pub turns_before-IsPlaced :
      (s : ChatState R) → All IsPlaced s.messages → All IsPlaced (turns_before s)
  unfolding turns_before
  turns_before-IsPlaced s h = elim (Bool-cases (has_failed s.phase)) [
    | inl f ↦ rw f (All-without_last_user s.messages h)
    | inr f ↦ rw f h
  ]

  pub send_text-IsSound :
      (s : ChatState R) (t : Option Text)
      → All IsPlaced s.messages
      → (can_send s (trim (or_else t s.input)) ≡ false → IsSound s)
      → IsSound (send_text s t)
  unfolding send_text
  send_text-IsSound s t h k =
      let text = trim (or_else t s.input) in
      elim (Bool-cases (can_send s text)) [
        | inl sends ↦ rw sends (record {
          placed =
              All-append IsPlaced (turns_before s) (said user text ∷ []) (turns_before-IsPlaced s h)
                (refl, tt);
          asked = λ e. (text, turns_before s, refl, refl, sendable s text sends);
          shown = λ e. cc;
        })
        | inr blank ↦ rw blank (k blank)
      ]

  pub phase_after-ne-sending : (o : Option (Message R)) → phase_after o ≢ sending
  phase_after-ne-sending o e = ground arith

  pub shown_after :
      (o : Option (Message R))
      → ((m : Message R) → o ≡ some m → IsPlaced m)
      → phase_after o ≡ draft
      → draft_after o ≢ none
  shown_after none h e = cc
  shown_after (some m) h e = λ k. ground (arith, h m refl)

  pub abort-IsSound : (s : ChatState R) → IsSound s → IsSound (abort_request s)
  unfolding abort_request
  abort-IsSound s h =
      if-IsSound (is_sending s.phase) _ s
        (λ e. record {
          placed = All-drop_last s.messages h.placed;
          asked = λ e. absurd (phase_after-ne-sending (last (drop_last s.messages)) e);
          shown = λ e. (
            refl,
            shown_after (last (drop_last s.messages))
                (λ m. last-IsPlaced _ (All-drop_last s.messages h.placed)) e,
          );
        })
        h

  pub answer_draft-IsSound :
      (s : ChatState R) (r : Reply R) (d : Option (Draft R))
      → IsSound s
      → IsSound (answer_draft s r d)
  answer_draft-IsSound s r none h = record {
    placed = All-append IsPlaced _ _ h.placed (refl, tt);
    asked = λ e. cc;
    shown = λ e. cc;
  }
  answer_draft-IsSound s r (some d) h = record {
    placed = All-append IsPlaced _ _ h.placed (refl, tt);
    asked = λ e. cc;
    shown = λ e. (rw last-append, λ k. cc);
  }

  pub answer-IsSound :
      (s : ChatState R) (r : Reply R) (k : ReplyKind) → IsSound s → IsSound (answer s r k)
  answer-IsSound s r draft_reply h = answer_draft-IsSound s r (draft_of r.rules r.position) h
  answer-IsSound s r clarify_reply h = record {
    placed = All-append IsPlaced _ _ h.placed (refl, tt);
    asked = λ e. cc;
    shown = λ e. cc;
  }
  answer-IsSound s r unsupported_reply h = record {
    placed = All-append IsPlaced _ _ h.placed (refl, tt);
    asked = λ e. cc;
    shown = λ e. cc;
  }

  pub chat_reducer-IsSound :
      (s : ChatState R) (a : ChatAction R) → IsSound s → IsSound (chat_reducer s a)
  unfolding chat_reducer
  chat_reducer-IsSound s (input text) h = record {
    placed = h.placed;
    asked = h.asked;
    shown = h.shown;
  }
  chat_reducer-IsSound s (note text) h = record {
    placed = h.placed;
    asked = h.asked;
    shown = h.shown;
  }
  chat_reducer-IsSound s (send text) h = send_text-IsSound s text h.placed (λ _. h)
  chat_reducer-IsSound s (reply id r) h =
      if-IsSound (is_current s id) _ s (λ e. answer-IsSound s r r.kind h) h
  chat_reducer-IsSound s (fail id m) h =
      if-IsSound (is_current s id) _ s
        (λ e. record { placed = h.placed; asked = λ e. cc; shown = λ e. cc }) h
  chat_reducer-IsSound s (timeout id) h =
      if-IsSound (is_current s id) _ s
        (λ e. record { placed = h.placed; asked = λ e. cc; shown = λ e. cc }) h
  chat_reducer-IsSound s abort h = abort-IsSound s h
  chat_reducer-IsSound s retry h =
      if-IsSound (is_error s.phase && truthy s.last_sent) _ s
        (λ e.
          send_text-IsSound (retried s) s.last_sent (All-without_last_user s.messages h.placed)
            (λ _. record {
              placed = All-without_last_user s.messages h.placed;
              asked = λ e. cc;
              shown = λ e. cc;
            }))
        h
  chat_reducer-IsSound s discard h = record { placed = tt; asked = λ e. cc; shown = λ e. cc }
  chat_reducer-IsSound s (accept text) h = record { placed = tt; asked = λ e. cc; shown = λ e. cc }
