-- ===== src/Authz/Scopes/Narrowing.antt =====
-- internal/authz/scopes.go: subset as inclusion, and the text form of a set.
use agent_gm.Prelude.{◌≡◌, refl, true, false, some, List, [], ◌∷◌, map, ap, arith, str_eq}
use agent_gm.Authz.Scopes.{
  Scope, admin, messages_read, messages_write, messages_delete, ScopeSet, TextRuntime, has, subset,
  list, strings, scope_text, to_string, parse_scopes, parse_scope_string, known_scope,
  new_scope_set,
}

-- What is relied on of the strings package: a scope's name has no space around it, and Fields takes
-- apart what Join put together of the names.
pub record IsLawful (rt : TextRuntime) : Type 0 where
  pub trims : (sc : Scope) → rt.trim_space (scope_text sc) ≡ scope_text sc
  pub splits : (s : ScopeSet) → rt.fields (rt.join (strings s)) ≡ strings s

pub subset-has :
    (s other : ScopeSet)
    → subset s other ≡ true
    → (sc : Scope) → has s sc ≡ true
    → has other sc ≡ true
unfolding subset has
subset-has s other h sc k = ground arith

pub subset_refl : (s : ScopeSet) → subset s s ≡ true
unfolding subset
subset_refl s = ground arith

pub subset_trans : (s t u : ScopeSet) → subset s t ≡ true → subset t u ≡ true → subset s u ≡ true
unfolding subset
subset_trans s t u h k = ground arith

known_text : (sc : Scope) → known_scope (scope_text sc) ≡ some sc
unfolding known_scope scope_text
known_text admin = refl
known_text messages_read = refl
known_text messages_write = refl
known_text messages_delete = refl

text_named : (sc : Scope) → str_eq (scope_text sc) "" ≡ false
unfolding scope_text
text_named admin = refl
text_named messages_read = refl
text_named messages_write = refl
text_named messages_delete = refl

parse-texts :
    (rt : TextRuntime) (l : List Scope)
    → IsLawful rt
    → parse_scopes rt (map scope_text l) ≡ some (new_scope_set l)
unfolding parse_scopes new_scope_set
parse-texts rt [] law = refl
parse-texts rt (sc ∷ l) law =
    rw (law.trims sc, text_named sc, known_text sc, parse-texts rt l law) refl

set-list : (s : ScopeSet) → new_scope_set (list s) ≡ s
unfolding new_scope_set list
set-list s = ground arith

-- A scope set that is stored in its canonical text form is read back as it was.
pub parse_scope_string-to_string :
    (rt : TextRuntime) (s : ScopeSet)
    → IsLawful rt
    → parse_scope_string rt (to_string rt s) ≡ some s
unfolding parse_scope_string to_string strings
parse_scope_string-to_string rt s law =
    rw (law.splits s) (rw (parse-texts rt (list s) law) (ap some (set-list s)))
