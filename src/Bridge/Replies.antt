-- ===== src/Bridge/Replies.antt =====
-- What the answer to a turn tells the phone.
use mathlib.Core.List.{[], ◌∷◌, ◌++◌, append_assoc, append-nil}
use ombot.Prelude.{
  String, ◌≡◌, refl, ap, ◌∙◌, sym, true, false, Option, none, some, List, arith, Bool-cases, inl,
  inr, if◌then◌else◌,
}
use ombot.Js.Value.{Value, member, is_bool}
use ombot.Gateway.Deduper.{Deduper}
use ombot.Gateway.ResponseText.{is_gateway_accepted_ack}
use ombot.Gateway.Dispatch.{assistant_text_for_consumer}
use ombot.Bridge.{
  Item, BridgeEffect, to_phone, Bridge, Attempt, set_provider, gate_pass, tell_phone, drain_queue,
  turn_settled, start_first, send_agent_turn, assistant_text_to_phone_res,
  message_ack_to_phone_event,
}
use ombot.Bridge.Gateway.{hand_on, spoken, acknowledged, answered, on_turn_response}

-- the texts that were sent to the phone, the first one first
abbrev pub told : List BridgeEffect → List String
told [] = []
told (to_phone text ∷ es) = told es ++ text ∷ []
told (_ ∷ es) = told es

-- the acknowledgement that an answer calls for, and the text in it
abbrev pub acks : Value → Option String → List String
acks msg none = []
acks msg (some id) = if is_gateway_accepted_ack msg then message_ack_to_phone_event id ∷ [] else []

abbrev pub texts : Option String → List String
texts none = []
texts (some text) = assistant_text_to_phone_res text ∷ []

start-told :
    (at : Attempt) (queue : List Item) (b : Bridge)
    → told (start_first at queue b).effects ≡ told b.effects
unfolding send_agent_turn
start-told at [] b = refl
start-told at (item ∷ rest) b = ground arith

settled-told : (at : Attempt) (b : Bridge) → told (turn_settled at b).effects ≡ told b.effects
unfolding turn_settled drain_queue
settled-told at b = ground (arith, start-told at b.queue (record b { in_flight = false }))

tell-told :
    (text : String) (b : Bridge)
    → b.has_session ≡ true
    → (told (tell_phone text b).effects ≡ told b.effects ++ text ∷ [])
      × ((tell_phone text b).has_session ≡ true)
      × ((tell_phone text b).reply_deduper ≡ b.reply_deduper)
tell-told text b h = ground arith

spoken-told :
    (r : Option String × Deduper) (b : Bridge)
    → b.has_session ≡ true
    → told (spoken r b).effects ≡ told b.effects ++ texts r.0
spoken-told (none, d) b h = sym (append-nil (told b.effects))
spoken-told (some text, d) b h =
    (tell-told (assistant_text_to_phone_res text) (record b { reply_deduper = d }) h).0

acknowledged-told :
    (msg : Value) (id : Option String) (b : Bridge)
    → b.has_session ≡ true
    → (told (acknowledged msg id b).effects ≡ told b.effects ++ acks msg id)
      × ((acknowledged msg id b).has_session ≡ true)
      × ((acknowledged msg id b).reply_deduper ≡ b.reply_deduper)
acknowledged-told msg none b h = (sym (append-nil (told b.effects)), h, refl)
acknowledged-told msg (some id) b h = elim (Bool-cases (is_gateway_accepted_ack msg)) [
  | inl accepted ↦ rw accepted (tell-told (message_ack_to_phone_event id) b h)
  | inr other ↦ rw other (sym (append-nil (told b.effects)), h, refl)
]

answered-told :
    (at : Attempt) (msg : Value) (item : Item) (b : Bridge)
    → b.has_session ≡ true
    → told (answered at msg item b).effects
      ≡ told b.effects
        ++ (acks msg item.client_message_id
            ++ texts (assistant_text_for_consumer msg b.reply_deduper).0)
unfolding answered hand_on
answered-told at msg item b h =
    let noted = acknowledged msg item.client_message_id b in
    let (told', session', deduper') = acknowledged-told msg item.client_message_id b h in
    settled-told at (hand_on msg noted)
    ∙ spoken-told (assistant_text_for_consumer msg noted.reply_deduper) noted session'
    ∙ (ap
          (λ (xs : List String).
            xs ++ texts (assistant_text_for_consumer msg noted.reply_deduper).0)
          told'
        ∙ ap
            (λ (d : Deduper).
              (told b.effects ++ acks msg item.client_message_id)
              ++ texts (assistant_text_for_consumer msg d).0)
            deduper')
    ∙ append_assoc (told b.effects) (acks msg item.client_message_id)
        (texts (assistant_text_for_consumer msg b.reply_deduper).0)

-- An answer to a turn that does not refuse it tells the phone that its message was accepted, if it
-- says so and the message has an id, and then the text in it, if there is one that is new, and
-- nothing else.
pub turn_response-told :
    (at : Attempt) (msg : Value) (item : Item) (b : Bridge)
    → b.has_session ≡ true
    → is_bool (member msg "ok") false ≡ false
    → told (on_turn_response at msg item b).effects
      ≡ told b.effects
        ++ (acks msg item.client_message_id
            ++ texts (assistant_text_for_consumer msg b.reply_deduper).0)
unfolding on_turn_response
turn_response-told at msg item b h given =
    rw given (answered-told at msg item (set_provider gate_pass b) h)
