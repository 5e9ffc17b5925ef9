-- ===== src/Authz/Scopes/Words.antt =====
-- internal/authz/scopes.go: words between spaces, as what the tests take for the strings package.
use Prim.Native.Char.{Char, code}
use Prim.Native.String.{[] as none_left, ◌∷◌ as ◌then◌}
use agent_gm.Prelude.{
  ◌≡◌, refl, Bool, true, false, ◌&&◌, String, List, [], ◌∷◌, ◌==◌, str_eq, if◌then◌else◌,
}
use agent_gm.Authz.Scopes.{
  Scope, admin, messages_read, messages_write, messages_delete, ScopeSet, TextRuntime, scope_text,
  strings,
}
use agent_gm.Authz.Scopes.Narrowing.{IsLawful}

abbrev is_space : Char → Bool
is_space c = code c == 32

abbrev put_first : Char → List String → List String
put_first c [] = (c then none_left) ∷ []
put_first c (w ∷ ws) = (c then w) ∷ ws

-- The parts between single spaces, also the empty ones.
abbrev parts : String → List String
parts none_left = none_left ∷ []
parts (c then s) = let rest = parts s in if is_space c then none_left ∷ rest else put_first c rest

abbrev words : List String → List String
words [] = []
words (w ∷ ws) = let rest = words ws in if str_eq w "" then rest else w ∷ rest

abbrev trim_left : String → String
trim_left none_left = none_left
trim_left (c then s) = let rest = trim_left s in if is_space c then rest else c then s

abbrev trim_right : String → String
trim_right none_left = none_left
trim_right (c then s) =
    let rest = trim_right s in if is_space c && str_eq rest "" then none_left else c then rest

abbrev glue : String → String → String
glue none_left t = t
glue (c then s) t = c then glue s t

abbrev join_words : List String → String
join_words [] = ""
join_words (w ∷ []) = w
join_words (w ∷ v ∷ ws) = glue w (glue " " (join_words (v ∷ ws)))

abbrev pub runtime : TextRuntime
runtime = record {
  trim_space = λ s. trim_left (trim_right s);
  fields = λ s. words (parts s);
  join = join_words;
}

trims_all : (sc : Scope) → runtime.trim_space (scope_text sc) ≡ scope_text sc
unfolding scope_text
trims_all admin = refl
trims_all messages_read = refl
trims_all messages_write = refl
trims_all messages_delete = refl

abbrev pub held : Bool → Bool → Bool → Bool → ScopeSet
held a r w d = record { admin_held = a; read_held = r; write_held = w; delete_held = d }

splits_all :
    (a r w d : Bool)
    → runtime.fields (runtime.join (strings (held a r w d))) ≡ strings (held a r w d)
unfolding strings
splits_all true true true true = refl
splits_all true true true false = refl
splits_all true true false true = refl
splits_all true true false false = refl
splits_all true false true true = refl
splits_all true false true false = refl
splits_all true false false true = refl
splits_all true false false false = refl
splits_all false true true true = refl
splits_all false true true false = refl
splits_all false true false true = refl
splits_all false true false false = refl
splits_all false false true true = refl
splits_all false false true false = refl
splits_all false false false true = refl
splits_all false false false false = refl

pub runtime-IsLawful : IsLawful runtime
runtime-IsLawful = record {
  trims = trims_all;
  splits = λ s. splits_all s.admin_held s.read_held s.write_held s.delete_held;
}
