-- ===== src/SessionKey/Names.antt =====
-- The text that is hashed into a session key.
use Prim.Native.String.{[], ◌∷◌, char_at}
use text.Mathlib.TextLemmas.{cons-append, nil-append}
use mathlib.Core.List.{[], ◌∷◌}
use ombot.Prelude.{String, ◌≡◌, refl, ◌∙◌, ap, false, ◌==◌}
use ombot.Js.Text.{◌⧺◌}
use ombot.Js.Text.Join.{Without, split_first}
use ombot.Js.Text.Trim.{IsTrimmed, trim-IsTrimmed, IsTrimmed-append, IsTrimmed-there}
use ombot.Js.Value.{Value, str, null, is_nullish, to_text}
use ombot.SessionKey.{id_text, normalize_id, session_key_input}

-- a text of one line
abbrev pub OneLine : String → Type 0
OneLine = Without (char_at "\n" 0)

newline-append : (s : String) → "\n" ⧺ s ≡ char_at "\n" 0 ∷ s
newline-append s = cons-append (char_at "\n" 0) [] s ∙ ap (◌∷◌ (char_at "\n" 0)) (nil-append s)

-- A text before a line break is determined if it is of one line.
line_split :
    (a b s t : String) → OneLine a → OneLine b → a ⧺ "\n" ⧺ s ≡ b ⧺ "\n" ⧺ t → (a ≡ b) × (s ≡ t)
line_split a b s t h k e =
    split_first (char_at "\n" 0) a b s t h k (rw (newline-append s, newline-append t) at e)

-- Two sessions of participants have one key text only if agent, conversation and participant are
-- the same, where agent and conversation are of one line.
pub session_key_input-injective :
    (a c p a' c' p' : Value)
    → (id_text p == "") ≡ false
    → (id_text p' == "") ≡ false
    → OneLine (normalize_id a)
    → OneLine (normalize_id c)
    → OneLine (normalize_id a')
    → OneLine (normalize_id c')
    → session_key_input a c p ≡ session_key_input a' c' p'
    → (normalize_id a ≡ normalize_id a')
      × (normalize_id c ≡ normalize_id c')
      × (normalize_id p ≡ normalize_id p')
unfolding session_key_input
session_key_input-injective a c p a' c' p' some₁ some₂ h₁ h₂ k₁ k₂ e =
    let (agents, rest) = line_split _ _ _ _ h₁ k₁ (rw (some₁, some₂) at e) in
    let (conversations, participants) = line_split _ _ _ _ h₂ k₂ rest in
    (agents, conversations, participants)

normalize_id-IsTrimmed : (s : String) → IsTrimmed s → normalize_id (str s) ≡ s
unfolding normalize_id id_text is_nullish to_text
normalize_id-IsTrimmed s h = rw (trim-IsTrimmed s h) (rw (IsTrimmed-there s h) refl)

named-IsTrimmed : (s : String) → IsTrimmed s → (id_text (str s) == "") ≡ false
unfolding id_text is_nullish to_text
named-IsTrimmed s h = rw (trim-IsTrimmed s h) (IsTrimmed-there s h)

-- Without that condition they need not be: whatever conversation and participant, not blank and
-- without white space at their ends, the conversation whose id is the two with a line break between
-- them has, without a participant, the key text of that conversation with that participant.
pub session_key_input-collision :
    (agent : Value) (conversation participant : String)
    → IsTrimmed conversation
    → IsTrimmed participant
    → session_key_input agent (str (conversation ⧺ "\n" ⧺ participant)) null
      ≡ session_key_input agent (str conversation) (str participant)
unfolding session_key_input
session_key_input-collision agent conversation participant h k =
    rw
      (
        named-IsTrimmed participant k,
        normalize_id-IsTrimmed conversation h,
        normalize_id-IsTrimmed participant k,
        normalize_id-IsTrimmed _ (IsTrimmed-append conversation "\n" participant h k),
      )
      (unfold id_text is_nullish in refl)
