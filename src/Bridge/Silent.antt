-- ===== src/Bridge/Silent.antt =====
-- A bridge without socket and session says nothing: its answers and its queue.
pub mod Frames
use mathlib.Core.List.{[], ◌∷◌}
use ombot.Prelude.{
  String, ◌≡◌, refl, ◌∙◌, Bool, true, false, ◌&&◌, not, Option, none, some, List, arith,
  if◌then◌else◌, ◌==◌,
}
use ombot.Js.Value.{Value, str, member, is_bool, nullish_else}
use ombot.Gateway.Deduper.{Deduper}
use ombot.Gateway.ResponseText.{is_gateway_accepted_ack}
use ombot.Gateway.ErrorClassifier.{
  Category, pairing, scope, provider, network, unknown, classify_gateway_error,
}
use ombot.Gateway.Dispatch.{assistant_text_for_consumer}
use ombot.Bridge.{
  Item, BridgeEffect, connect_frame, agent_frame, to_phone, open_gateway,
  message_ack_to_phone_event, fail_provider, not_configured, failed, reply, set_provider, gate_pass,
  Bridge, Fallback, Attempt, act, fail_gate, record_gateway_reject, use_fallback, use_reply,
  drain_queue, is_gateway_open, try_fallback, tell_phone, assistant_text_to_phone_res, turn_settled,
  start_first, send_agent_turn,
}
use ombot.Bridge.Gateway.{
  hand_on, spoken, acknowledged, answered, answered_or_fallback, on_turn_response,
}

-- what reaches the gateway or the phone: frames, texts, and connections that are opened
abbrev pub said : List BridgeEffect → List BridgeEffect
said [] = []
said (connect_frame id params ∷ es) = connect_frame id params ∷ said es
said (agent_frame id item ∷ es) = agent_frame id item ∷ said es
said (to_phone text ∷ es) = to_phone text ∷ said es
said (open_gateway ∷ es) = open_gateway ∷ said es
said (_ ∷ es) = said es

-- a bridge that was stopped when it had said `before`
pub record IsSilent (before : List BridgeEffect) (b : Bridge) : Type 0 where
  pub destroyed : b.destroyed ≡ true
  pub no_socket : b.gateway_ws ≡ none
  pub no_session : b.has_session ≡ false
  pub quiet : said b.effects ≡ before

module _ {before : List BridgeEffect} where
  -- a change of other fields, or a step that says nothing
  pub like-IsSilent :
      (b c : Bridge)
      → c.destroyed ≡ b.destroyed
      → c.gateway_ws ≡ b.gateway_ws
      → c.has_session ≡ b.has_session
      → said c.effects ≡ said b.effects
      → IsSilent before b
      → IsSilent before c
  like-IsSilent b c d w s e h = record {
    destroyed = d ∙ h.destroyed;
    no_socket = w ∙ h.no_socket;
    no_session = s ∙ h.no_session;
    quiet = e ∙ h.quiet;
  }

  -- a step that is not taken, since its condition does not hold
  skipped-IsSilent :
      (t : Bool) (b c : Bridge)
      → t ≡ false
      → IsSilent before c
      → IsSilent before (if t then b else c)
  skipped-IsSilent true b c e h = cc
  skipped-IsSilent false b c e h = h

  pub if-IsSilent :
      (t : Bool) (b c : Bridge)
      → IsSilent before b
      → IsSilent before c
      → IsSilent before (if t then b else c)
  if-IsSilent true b c h k = h
  if-IsSilent false b c h k = k

  no_gateway : (b : Bridge) → IsSilent before b → is_gateway_open b ≡ false
  no_gateway b h = ground (arith, h.no_socket)

  start-IsSilent :
      (at : Attempt) (queue : List Item) (b : Bridge)
      → IsSilent before b
      → IsSilent before (start_first at queue b)
  start-IsSilent at [] b h = h
  start-IsSilent at (item ∷ rest) b h =
      let taken = record b { in_flight = true; queue = rest } in
      skipped-IsSilent (is_gateway_open b) (send_agent_turn at item taken)
        (act (try_fallback item) taken) (no_gateway b h)
        (like-IsSilent b (act (try_fallback item) taken) refl refl refl refl h)

  pub drain-IsSilent :
      (at : Attempt) (b : Bridge) → IsSilent before b → IsSilent before (drain_queue at b)
  unfolding drain_queue
  drain-IsSilent at b h = if-IsSilent b.in_flight b _ h (
      if-IsSilent (not (is_gateway_open b) && not b.auto_fallback_enabled) b
        (start_first at b.queue b) h (start-IsSilent at b.queue b h))

  pub settled-IsSilent :
      (at : Attempt) (b : Bridge) → IsSilent before b → IsSilent before (turn_settled at b)
  unfolding turn_settled
  settled-IsSilent at b h =
      drain-IsSilent at (record b { in_flight = false }) (like-IsSilent b _ refl refl refl refl h)

  tell-IsSilent :
      (text : String) (b : Bridge) → IsSilent before b → IsSilent before (tell_phone text b)
  tell-IsSilent text b h = skipped-IsSilent b.has_session (act (to_phone text) b) b h.no_session h

  spoken-IsSilent :
      (r : Option String × Deduper) (b : Bridge) → IsSilent before b → IsSilent before (spoken r b)
  spoken-IsSilent (none, d) b h = like-IsSilent b _ refl refl refl refl h
  spoken-IsSilent (some text, d) b h =
      tell-IsSilent (assistant_text_to_phone_res text) (record b { reply_deduper = d })
        (like-IsSilent b _ refl refl refl refl h)

  pub hand_on-IsSilent :
      (msg : Value) (b : Bridge) → IsSilent before b → IsSilent before (hand_on msg b)
  unfolding hand_on
  hand_on-IsSilent msg b h = spoken-IsSilent (assistant_text_for_consumer msg b.reply_deduper) b h

  acknowledged-IsSilent :
      (msg : Value) (id : Option String) (b : Bridge)
      → IsSilent before b
      → IsSilent before (acknowledged msg id b)
  acknowledged-IsSilent msg none b h = h
  acknowledged-IsSilent msg (some id) b h =
      if-IsSilent (is_gateway_accepted_ack msg) (tell_phone (message_ack_to_phone_event id) b) b
        (tell-IsSilent (message_ack_to_phone_event id) b h) h

  answered-IsSilent :
      (at : Attempt) (msg : Value) (item : Item) (b : Bridge)
      → IsSilent before b
      → IsSilent before (answered at msg item b)
  unfolding answered
  answered-IsSilent at msg item b h =
      let noted = acknowledged msg item.client_message_id b in
      settled-IsSilent at (hand_on msg noted)
        (hand_on-IsSilent msg noted (acknowledged-IsSilent msg item.client_message_id b h))

  fail_gate-IsSilent :
      (c : Category) (b : Bridge) → IsSilent before b → IsSilent before (fail_gate c b)
  fail_gate-IsSilent pairing b h = like-IsSilent b _ refl refl refl refl h
  fail_gate-IsSilent scope b h = like-IsSilent b _ refl refl refl refl h
  fail_gate-IsSilent provider b h = like-IsSilent b _ refl refl refl refl h
  fail_gate-IsSilent network b h = h
  fail_gate-IsSilent unknown b h = h

  pub reject-IsSilent :
      (error : Value) (b : Bridge)
      → IsSilent before b
      → IsSilent before (record_gateway_reject error b)
  unfolding record_gateway_reject
  reject-IsSilent error b h = fail_gate-IsSilent (classify_gateway_error error).category b h

  fail_provider-IsSilent :
      (c : Category) (b : Bridge) → IsSilent before b → IsSilent before (fail_provider c b)
  fail_provider-IsSilent pairing b h = h
  fail_provider-IsSilent scope b h = h
  fail_provider-IsSilent provider b h = like-IsSilent b _ refl refl refl refl h
  fail_provider-IsSilent network b h = h
  fail_provider-IsSilent unknown b h = h

  reply-IsSilent :
      (t : Bool) (text : String) (b : Bridge)
      → t ≡ false
      → IsSilent before b
      → IsSilent before (use_reply t text b).0
  reply-IsSilent false text b e h = h
  reply-IsSilent true text b e h = cc

  -- Without a session the fallback's text is not used.
  pub fallback-IsSilent :
      (f : Fallback) (b : Bridge) → IsSilent before b → IsSilent before (use_fallback f b).0
  unfolding use_fallback
  fallback-IsSilent not_configured b h = h
  fallback-IsSilent (failed error) b h =
      fail_provider-IsSilent (classify_gateway_error (str error)).category b h
  fallback-IsSilent (reply text) b h =
      reply-IsSilent (not (text == "") && b.has_session) text b (ground (arith, h.no_session)) h

  fallback_or_answer-IsSilent :
      (at : Attempt) (msg : Value) (item : Item) (r : Bridge × Bool)
      → IsSilent before r.0
      → IsSilent before (answered_or_fallback at msg item r)
  fallback_or_answer-IsSilent at msg item (b, true) h = settled-IsSilent at b h
  fallback_or_answer-IsSilent at msg item (b, false) h = answered-IsSilent at msg item b h

  pub turn_response-IsSilent :
      (at : Attempt) (msg : Value) (item : Item) (b : Bridge)
      → IsSilent before b
      → IsSilent before (on_turn_response at msg item b)
  unfolding on_turn_response
  turn_response-IsSilent at msg item b h =
      let refused = record_gateway_reject (nullish_else (member msg "error") msg) b in
      let passed = set_provider gate_pass b in
      if-IsSilent (is_bool (member msg "ok") false)
        (answered_or_fallback at msg item (use_fallback at.fallback refused))
        (answered at msg item passed)
        (fallback_or_answer-IsSilent at msg item (use_fallback at.fallback refused) (
          fallback-IsSilent at.fallback refused
            (reject-IsSilent (nullish_else (member msg "error") msg) b h)))
        (answered-IsSilent at msg item passed (like-IsSilent b passed refl refl refl refl h))
