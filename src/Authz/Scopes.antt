-- ===== src/Authz/Scopes.antt =====
-- internal/authz/scopes.go: the four scopes and their sets. A set is four flags, since every set of
-- the program is made of the four; strings.TrimSpace, Fields and Join belong to the runtime.
pub mod Narrowing
pub mod Words
use agent_gm.Prelude.{
  ℕ, ◌+◌, Bool, true, false, not, ◌&&◌, Option, none, some, String, List, [], ◌∷◌, ◌++◌, map,
  str_eq, ◌==◌, ◌≡◌, if◌then◌else◌,
}

pub data Scope : Type 0 where
  admin messages_read messages_write messages_delete : Scope

unfoldable pub scope_text : Scope → String
scope_text admin = "admin"
scope_text messages_read = "messages:read"
scope_text messages_write = "messages:write"
scope_text messages_delete = "messages:delete"

abbrev pub canonical_order : List Scope
canonical_order = admin ∷ messages_read ∷ messages_write ∷ messages_delete ∷ []

unfoldable pub enrollable : Scope → Bool
enrollable admin = false
enrollable _ = true

-- The scope that a text names, if it is Known.
unfoldable pub known_scope : String → Option Scope
known_scope s =
    if str_eq "admin" s
    then some admin
    else if str_eq "messages:read" s
    then some messages_read
    else if str_eq "messages:write" s
    then some messages_write
    else if str_eq "messages:delete" s
    then some messages_delete
    else none

pub record ScopeSet : Type 0 where
  pub admin_held : Bool
  pub read_held : Bool
  pub write_held : Bool
  pub delete_held : Bool

abbrev pub empty_set : ScopeSet
empty_set = record {
  admin_held = false;
  read_held = false;
  write_held = false;
  delete_held = false;
}

unfoldable pub add_scope : Scope → ScopeSet → ScopeSet
add_scope admin s = record s { admin_held = true }
add_scope messages_read s = record s { read_held = true }
add_scope messages_write s = record s { write_held = true }
add_scope messages_delete s = record s { delete_held = true }

unfoldable pub has : ScopeSet → Scope → Bool
has s admin = s.admin_held
has s messages_read = s.read_held
has s messages_write = s.write_held
has s messages_delete = s.delete_held

unfoldable pub new_scope_set : List Scope → ScopeSet
unfolding add_scope
new_scope_set [] = empty_set
new_scope_set (sc ∷ rest) = add_scope sc (new_scope_set rest)

unfoldable pub admin_bootstrap_scopes : ScopeSet
unfolding new_scope_set
admin_bootstrap_scopes = new_scope_set canonical_order

pub record TextRuntime : Type 0 where
  pub trim_space : String → String
  pub fields : String → List String
  pub join : List String → String

abbrev add_known : Option Scope → Option ScopeSet → Option ScopeSet
add_known none rest = none
add_known (some sc) none = none
add_known (some sc) (some s) = some (add_scope sc s)

-- None is ErrInvalidScope.
unfoldable pub parse_scopes : TextRuntime → List String → Option ScopeSet
unfolding known_scope add_scope
parse_scopes rt [] = some empty_set
parse_scopes rt (r ∷ rest) =
    let parsed = parse_scopes rt rest in
    if str_eq (rt.trim_space r) "" then parsed else add_known (known_scope (rt.trim_space r)) parsed

unfoldable pub parse_scope_string : TextRuntime → String → Option ScopeSet
parse_scope_string rt s = parse_scopes rt (rt.fields s)

-- The scopes of `order` that the set holds.
abbrev held_in : ScopeSet → List Scope → List Scope
held_in s [] = []
held_in s (sc ∷ rest) = let more = held_in s rest in if has s sc then sc ∷ more else more

unfoldable pub list : ScopeSet → List Scope
unfolding has
list s = held_in s canonical_order

unfoldable pub strings : ScopeSet → List String
unfolding list scope_text
strings s = map scope_text (list s)

unfoldable pub to_string : TextRuntime → ScopeSet → String
to_string rt s = rt.join (strings s)

abbrev implies : Bool → Bool → Bool
implies true b = b
implies false b = true

unfoldable pub subset : ScopeSet → ScopeSet → Bool
subset s other =
    implies s.admin_held other.admin_held
    && implies s.read_held other.read_held
    && implies s.write_held other.write_held
    && implies s.delete_held other.delete_held

abbrev flag : Bool → ℕ
flag true = 1
flag false = 0

unfoldable pub len : ScopeSet → ℕ
len s = flag s.admin_held + flag s.read_held + flag s.write_held + flag s.delete_held

unfoldable pub is_empty : ScopeSet → Bool
is_empty s = not (s.admin_held) && not (s.read_held) && not (s.write_held) && not (s.delete_held)

unfoldable pub widens : ScopeSet → ScopeSet → Bool
unfolding subset
widens s other = not (subset s other)

unfoldable pub equal : ScopeSet → ScopeSet → Bool
unfolding len subset
equal s other = len s == len other && subset s other
