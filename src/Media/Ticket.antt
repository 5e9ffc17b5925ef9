-- ===== src/Media/Ticket.antt =====
-- internal/media/ticket.go: what a ticket is made of, and what a presented value has to be. A text is the
-- list of its bytes; the keyed MAC in its base64 form, the base64 form of a nonce, the decimal form of
-- a number, and the hash of a value belong to the runtime.
pub mod Redeeming
mod Tests
use agent_gm.Prelude.{
  ℕ, Bool, true, false, not, ◌&&◌, Option, none, some, List, [], ◌∷◌, ◌++◌, length, ◌==◌,
  if◌then◌else◌,
}

abbrev pub Bytes : Type 0
Bytes = List ℕ

pub data TicketKind : Type 0 where
  upload download : TicketKind

pub record SignerRuntime : Type 0 where
  pub mac_of : Bytes → Bytes
  pub encode : Bytes → Bytes
  pub digits : ℕ → Bytes
  pub hash_token : Bytes → Bytes
  -- hmac.Equal
  pub equal : Bytes → Bytes → Bool

-- "agm_ut_" and "agm_dt_"
abbrev pub prefix_for : TicketKind → Bytes
prefix_for upload = 97 ∷ 103 ∷ 109 ∷ 95 ∷ 117 ∷ 116 ∷ 95 ∷ []
prefix_for download = 97 ∷ 103 ∷ 109 ∷ 95 ∷ 100 ∷ 116 ∷ 95 ∷ []

-- "upload" and "download"
abbrev pub kind_text : TicketKind → Bytes
kind_text upload = 117 ∷ 112 ∷ 108 ∷ 111 ∷ 97 ∷ 100 ∷ []
kind_text download = 100 ∷ 111 ∷ 119 ∷ 110 ∷ 108 ∷ 111 ∷ 97 ∷ 100 ∷ []

unfoldable pub audience : TicketKind → Bytes → Bytes
audience kind target = kind_text kind ++ 58 ∷ target

-- The length, a colon and the text.
unfoldable pub field_of : SignerRuntime → Bytes → Bytes
field_of rt s = rt.digits (length s) ++ 58 ∷ s

unfoldable pub mac : SignerRuntime → TicketKind → Bytes → Bytes → Bytes
unfolding audience field_of
mac rt kind target nonce = rt.mac_of (field_of rt (audience kind target) ++ field_of rt nonce)

unfoldable pub value_of : SignerRuntime → TicketKind → Bytes → Bytes → Bytes
unfolding mac
value_of rt kind target enc = prefix_for kind ++ (enc ++ 46 ∷ mac rt kind target enc)

-- The nonce is what crypto/rand gave, if it did not fail.
unfoldable pub mint : SignerRuntime → Option Bytes → TicketKind → Bytes → Option (Bytes × Bytes)
unfolding value_of
mint rt none kind target = none
mint rt (some nonce) kind target =
    let value = value_of rt kind target (rt.encode nonce) in some (value, rt.hash_token value)

-- strings.HasPrefix and TrimPrefix
unfoldable pub has_prefix : Bytes → Bytes → Bool
has_prefix [] s = true
has_prefix (p ∷ ps) [] = false
has_prefix (p ∷ ps) (c ∷ cs) = let rest = has_prefix ps cs in p == c && rest

unfoldable pub after_prefix : Bytes → Bytes → Bytes
after_prefix [] s = s
after_prefix (p ∷ ps) [] = []
after_prefix (p ∷ ps) (c ∷ cs) = after_prefix ps cs

abbrev cut_here : ℕ → Bytes → Option (Bytes × Bytes) → Option (Bytes × Bytes)
cut_here c rest (some (a, b)) = some (c ∷ a, b)
cut_here c rest none = if c == 46 then some ([], rest) else none

-- The text cut at its last dot.
unfoldable pub cut_last : Bytes → Option (Bytes × Bytes)
cut_last [] = none
cut_last (c ∷ rest) = cut_here c rest (cut_last rest)

-- Neither part may be empty.
unfoldable pub verify_parts :
    SignerRuntime → Bytes → TicketKind → Bytes → Option (Bytes × Bytes) → Option Bytes
unfolding mac
verify_parts rt value kind target none = none
verify_parts rt value kind target (some ([], presented)) = none
verify_parts rt value kind target (some (n ∷ nonce, [])) = none
verify_parts rt value kind target (some (n ∷ nonce, p ∷ presented)) =
    if rt.equal (p ∷ presented) (mac rt kind target (n ∷ nonce))
    then some (rt.hash_token value)
    else none

-- None is ErrTicketRefused.
unfoldable pub verify : SignerRuntime → Bytes → TicketKind → Bytes → Option Bytes
unfolding verify_parts cut_last has_prefix after_prefix
verify rt value kind target =
    if has_prefix (prefix_for kind) value
    then verify_parts rt value kind target (cut_last (after_prefix (prefix_for kind) value))
    else none

unfoldable pub kind_of : Bytes → Option TicketKind
unfolding has_prefix
kind_of value =
    if has_prefix (prefix_for upload) value
    then some upload
    else if has_prefix (prefix_for download) value
    then some download
    else none
