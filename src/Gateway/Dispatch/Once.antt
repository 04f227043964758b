-- ===== src/Gateway/Dispatch/Once.antt =====
-- What reaches the phone: every spoken text, never a blank one, and each run once.
use ombot.Prelude.{
  ℕ, ◌<◌, String, ◌≡◌, refl, sym, ap, ◌∙◌, Bool, true, false, not, Option, none, some, List, [],
  ◌∷◌, Bool-cases, Option-cases, some_inj, some_or, ◌⊎◌, inl, inr, if◌then◌else◌, ◌==◌,
}
use ombot.Js.Text.{trim}
use ombot.Js.Text.Trim.{has_ink, trim_empty, has_ink-trim, inked-ne-empty}
use ombot.Js.Value.{Value, member, is_object, is_text, is_non_empty_string}
use ombot.Gateway.ResponseText.{extract_assistant_text, is_gateway_accepted_ack}
use ombot.Gateway.ResponseText.Ink.{extract_assistant_text-ink, is_non_empty-ink}
use ombot.Gateway.Deduper.{Deduper, should_deliver}
use ombot.Gateway.Deduper.Refinement.{Refines, deliver_all, run_delivered_once}
use ombot.Gateway.Dispatch.{
  Delivery, Reason, invalid, connect_challenge, chat_final, agent_lifecycle_end, agent_stream,
  other_event, accepted_ack, res, ignored, as_res, silent, first_non_empty, run_id_candidates,
  extract_gateway_run_id, evaluate_event, evaluate_gateway_assistant_delivery,
  assistant_text_for_consumer, spoken, is_chat_final_event, is_agent_lifecycle_end_event,
}

-- what a delivery that speaks says: a text that is not blank, under the frame's run id
pub record IsSpoken (msg : Value) (d : Delivery) : Type 0 where
  pub said : String
  pub text_is : d.text ≡ some said
  pub inked : has_ink said ≡ true
  pub run_is : d.run_id ≡ extract_gateway_run_id msg

abbrev Speaks : Value → Delivery → Type 0
Speaks msg d = d.deliver ≡ true → IsSpoken msg d

if-Speaks :
    (msg : Value) (b : Bool) (d e : Delivery)
    → Speaks msg d
    → Speaks msg e
    → Speaks msg (if b then d else e)
if-Speaks msg true d e h k = h
if-Speaks msg false d e h k = k

silent-Speaks : (msg : Value) (id : Option String) (why : Reason) → Speaks msg (silent id why)
silent-Speaks msg id why h = cc

spoken-Speaks :
    (msg frame : Value) (why : Reason)
    → Speaks msg (spoken (extract_assistant_text frame) (extract_gateway_run_id msg) why)
spoken-Speaks msg frame why h = elim (Option-cases (extract_assistant_text frame)) [
  | inl nothing ↦ cc (rw nothing at h)
  | inr (said, found) ↦ record {
    said = said;
    text_is = found;
    inked = extract_assistant_text-ink frame said found;
    run_is = refl;
  }
]

event-Speaks : (msg : Value) → Speaks msg (evaluate_event msg)
unfolding evaluate_event
event-Speaks msg =
    if-Speaks msg (is_text (member msg "event") "connect.challenge") _ _
      (silent-Speaks msg none connect_challenge)
      (if-Speaks msg (is_chat_final_event msg) _ _ (spoken-Speaks msg (as_res msg) chat_final) (
        if-Speaks msg (is_text (member msg "event") "agent") _ _
          (if-Speaks msg (is_agent_lifecycle_end_event msg) _ _
            (spoken-Speaks msg (as_res msg) agent_lifecycle_end) (silent-Speaks msg _ agent_stream))
          (silent-Speaks msg _ other_event)))

-- A decision to deliver has a text that is not blank, under the run id of the frame.
pub evaluate-IsSpoken :
    (msg : Value)
    → (evaluate_gateway_assistant_delivery msg).deliver ≡ true
    → IsSpoken msg (evaluate_gateway_assistant_delivery msg)
unfolding evaluate_gateway_assistant_delivery
evaluate-IsSpoken msg = if-Speaks msg (not (is_object msg)) _ _ (silent-Speaks msg none invalid) (
    if-Speaks msg (is_text (member msg "type") "event") _ _ (event-Speaks msg) (
      if-Speaks msg (is_text (member msg "type") "res") _ _
        (if-Speaks msg (is_gateway_accepted_ack msg) _ _ (silent-Speaks msg _ accepted_ack)
          (spoken-Speaks msg msg res))
        (silent-Speaks msg none ignored)))

-- a frame whose text `said` was handed on, with the deduper's word that it is fresh
pub record Delivered (msg : Value) (d : Deduper) (said : String) : Type 0 where
  pub inked : has_ink said ≡ true
  pub fresh : (should_deliver (extract_gateway_run_id msg) (some said) d).0 ≡ true
  pub next :
      (assistant_text_for_consumer msg d).1
      ≡ (should_deliver (extract_gateway_run_id msg) (some said) d).1

-- What `assistantTextForConsumer` does with a decision, once its text and its run id are known.
module _ (msg : Value) (d : Deduper) where
  consumer_silent :
      (evaluate_gateway_assistant_delivery msg).deliver ≡ false
      → assistant_text_for_consumer msg d ≡ (none, d)
  unfolding assistant_text_for_consumer
  consumer_silent h = rw h

  consumer_spoken :
      (evaluate_gateway_assistant_delivery msg).deliver ≡ true
      → (s : IsSpoken msg (evaluate_gateway_assistant_delivery msg))
      → assistant_text_for_consumer msg d ≡ (
        if (should_deliver (extract_gateway_run_id msg) (some s.said) d).0
            then some s.said
            else none,
        (should_deliver (extract_gateway_run_id msg) (some s.said) d).1,
      )
  unfolding assistant_text_for_consumer
  consumer_spoken h s = rw (h, s.text_is, s.run_is, inked-ne-empty s.said s.inked)

  -- A text that is handed on is not blank, and the deduper took it for fresh under its run id.
  consumer-Delivered :
      (said : String) → (assistant_text_for_consumer msg d).0 ≡ some said → Delivered msg d said
  consumer-Delivered said e = elim (Bool-cases (evaluate_gateway_assistant_delivery msg).deliver) [
    | inr silent ↦ cc (ap (λ r. r.0) (consumer_silent silent))
    | inl speaks ↦
        let s = evaluate-IsSpoken msg speaks in
        spoken-Delivered s.said s.inked (consumer_spoken speaks s) (Bool-cases _)
  ]
    where
      spoken-Delivered :
          (words : String)
          → has_ink words ≡ true
          → assistant_text_for_consumer msg d ≡ (
            if (should_deliver (extract_gateway_run_id msg) (some words) d).0
                then some words
                else none,
            (should_deliver (extract_gateway_run_id msg) (some words) d).1,
          )
          → ((should_deliver (extract_gateway_run_id msg) (some words) d).0 ≡ true)
            ⊎ ((should_deliver (extract_gateway_run_id msg) (some words) d).0 ≡ false)
          → Delivered msg d said
      spoken-Delivered words inked q (inr stale) = cc (sym e ∙ ap (λ r. r.0) (rw stale at q))
      spoken-Delivered words inked q (inl fresh) =
          let same : words ≡ said = some_inj (sym (ap (λ r. r.0) (rw fresh at q)) ∙ e) in
          rw same at (
            let r : Delivered msg d words = record {
              inked = inked;
              fresh = fresh;
              next = ap (λ r. r.1) q;
            } in
            r)

-- a run id that is not blank
abbrev IsNamed : Option String → Type 0
IsNamed none = Unit
IsNamed (some id) = (trim id == "") ≡ false

some_or-IsNamed : (o p : Option String) → IsNamed o → IsNamed p → IsNamed (some_or o p)
some_or-IsNamed none p h k = k
some_or-IsNamed (some id) p h k = h

first_non_empty-IsNamed : (cs : List Value) → IsNamed (first_non_empty cs)
unfolding first_non_empty
first_non_empty-IsNamed [] = tt
first_non_empty-IsNamed (c ∷ cs) = elim (Bool-cases (is_non_empty_string c)) [
  | inl full ↦ rw full (rw (trim_empty, has_ink-trim, is_non_empty-ink c full) refl)
  | inr blank ↦ rw blank (first_non_empty-IsNamed cs)
]

own_id-IsNamed : (b : Bool) (c : Value) → IsNamed (if b then first_non_empty (c ∷ []) else none)
own_id-IsNamed true c = first_non_empty-IsNamed (c ∷ [])
own_id-IsNamed false c = tt

if_not-IsNamed : (b : Bool) (o : Option String) → IsNamed o → IsNamed (if not b then none else o)
if_not-IsNamed true o h = h
if_not-IsNamed false o h = tt

run_id-IsNamed : (msg : Value) → IsNamed (extract_gateway_run_id msg)
unfolding extract_gateway_run_id
run_id-IsNamed msg = if_not-IsNamed (is_object msg) _ (
    some_or-IsNamed _ _ (first_non_empty-IsNamed (run_id_candidates msg))
      (own_id-IsNamed (is_text (member msg "type") "res") (member msg "id")))

-- Of two frames of one run, such as the `chat` frame in state `final` and the `agent` frame at the
-- end of its life, at most one is handed on: once the first was, the second is not, whatever its
-- text, with a deduper of some capacity whose history is known.
pub one_bubble_per_run :
    (n : ℕ) (d : Deduper) (history : List String) (first second : Value) (id said : String)
    → Refines n d history
    → 0 < n
    → extract_gateway_run_id first ≡ some id
    → extract_gateway_run_id second ≡ some id
    → (assistant_text_for_consumer first d).0 ≡ some said
    → (assistant_text_for_consumer second (assistant_text_for_consumer first d).1).0 ≡ none
unfolding deliver_all
one_bubble_per_run n d history first second id said r room id₁ id₂ e =
    let a = consumer-Delivered first d said e in
    elim (Option-cases
      (assistant_text_for_consumer second (assistant_text_for_consumer first d).1).0) [
        | inl silent ↦ silent
        | inr (again, spoken) ↦
            let b = consumer-Delivered second _ again spoken in
            let stale =
              run_delivered_once n d history id said again [] r (rw id₁ at (run_id-IsNamed first))
                (rw id₁ at a.fresh) room in
            cc (stale, rw (a.next, id₁, id₂) at b.fresh)
      ]
