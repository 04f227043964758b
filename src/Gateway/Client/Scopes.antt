-- ===== src/Gateway/Client/Scopes.antt =====
-- gatewayAgentClient.js: `normalize` of `defaultGatewayScopes`, the scopes that the client asks for.
pub mod Minimal
use ombot.Prelude.{String, Bool, true, false, List, [], ◌∷◌, ◌++◌, if◌then◌else◌, ◌==◌}
use ombot.Js.Text.{◌⧺◌, trim, starts_with, drop_chars}
use ombot.Js.Value.{Value, str, Items, nil, cons}
use ombot.Gateway.Deduper.{has}

-- `scope.replace(/^operater\./, 'operator.')`
unfoldable pub canonical_scope : String → String
canonical_scope scope =
    if starts_with scope "operater." then "operator." ⧺ drop_chars 9 scope else scope

-- the list with a scope that it does not have yet; the list and the Set `seen` have the same members
unfoldable pub add_scope : String → List String → List String
add_scope scope out = if has scope out then out else out ++ scope ∷ []

abbrev pub add_trimmed : String → List String → List String
add_trimmed scope out = if scope == "" then out else add_scope (canonical_scope scope) out

unfoldable pub add_scopes : Items → List String → List String
unfolding canonical_scope add_scope
add_scopes nil out = out
add_scopes (cons (str s) scopes) out = add_scopes scopes (add_trimmed (trim s) out)
add_scopes (cons v scopes) out = add_scopes scopes out

unfoldable pub normalize : Items → List String
unfolding add_scopes
normalize scopes = add_scope "operator.write" (add_scope "operator.read" (add_scopes scopes []))
