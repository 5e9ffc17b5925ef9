-- ===== src/Media/Ticket/Redeeming.antt =====
-- internal/media/ticket.go: a ticket is good for its own audience and for no other.
use agent_gm.Prelude.{
  ℕ, ◌<◌, ◌≡◌, refl, sym, ap, ◌∙◌, ◌↔◌, true, false, none, some, List, [], ◌∷◌, ◌++◌, length, All,
  arith, ◌==◌, Bool-cases, inl, inr, subst,
}
use agent_gm.Media.Ticket.{
  Bytes, TicketKind, upload, download, SignerRuntime, prefix_for, audience, field_of, mac, value_of,
  mint, has_prefix, after_prefix, cut_last, verify_parts, verify,
}

abbrev pub Lacks : ℕ → Bytes → Type 0
Lacks c s = All (λ x. (x == c) ≡ false) s

-- Base64 and decimal forms hold neither dots nor colons, what is not empty is not encoded as nothing,
-- and two numbers have two forms.
pub record IsLawful (rt : SignerRuntime) : Type 0 where
  pub mac_lacks_dot : (m : Bytes) → Lacks 46 (rt.mac_of m)
  pub mac_some : (m : Bytes) → 0 < length (rt.mac_of m)
  pub encode_some : (n : Bytes) → 0 < length n → 0 < length (rt.encode n)
  pub digits_lack_colon : (n : ℕ) → Lacks 58 (rt.digits n)
  pub digits_apart : (n m : ℕ) → rt.digits n ≡ rt.digits m → n ≡ m
  pub equal_iff : (x y : Bytes) → (rt.equal x y ≡ true) ↔ (x ≡ y)

-- The MAC tells a ticket of one target from one of another.
abbrev pub Told : SignerRuntime → TicketKind → Bytes → Bytes → Bytes → Type 0
Told rt kind target target' enc =
    mac rt kind target enc ≡ mac rt kind target' enc
    → field_of rt (audience kind target) ++ field_of rt enc
      ≡ field_of rt (audience kind target') ++ field_of rt enc

cons_head : {A : Type 0} {x y : A} {xs ys : List A} → x ∷ xs ≡ y ∷ ys → x ≡ y
cons_head h = cc

cons_tail : {A : Type 0} {x y : A} {xs ys : List A} → x ∷ xs ≡ y ∷ ys → xs ≡ ys
cons_tail h = cc

-- Two texts that are equal up to their first c.
cut_first :
    (c : ℕ) (x y u v : Bytes) → Lacks c x → Lacks c y → x ++ c ∷ u ≡ y ++ c ∷ v → (x ≡ y) × (u ≡ v)
cut_first c [] [] u v k l h = (refl, cons_tail h)
cut_first c [] (b ∷ y) u v k l h =
    let e : c ≡ b = cons_head h in let n = l.0 in absurd (ground arith)
cut_first c (a ∷ x) [] u v k l h =
    let e : a ≡ c = cons_head h in let n = k.0 in absurd (ground arith)
cut_first c (a ∷ x) (b ∷ y) u v k l h =
    let e : a ≡ b = cons_head h in
    let (same, rest) = cut_first c x y u v k.1 l.1 (cons_tail h) in (rw (e, same) refl, rest)

same_front : (x y u v : Bytes) → length x ≡ length y → x ++ u ≡ y ++ v → x ≡ y
same_front [] [] u v n h = refl
same_front [] (b ∷ y) u v n h = absurd (omega arith)
same_front (a ∷ x) [] u v n h = absurd (omega arith)
same_front (a ∷ x) (b ∷ y) u v n h =
    let e : a ≡ b = cons_head h in
    let same = same_front x y u v (omega arith) (cons_tail h) in rw (e, same) refl

append_assoc : (xs ys zs : Bytes) → (xs ++ ys) ++ zs ≡ xs ++ (ys ++ zs)
append_assoc [] ys zs = refl
append_assoc (x ∷ xs) ys zs = ap (λ l. x ∷ l) (append_assoc xs ys zs)

-- Whatever follows two fields, equal texts have equal first fields.
field_of-apart :
    (rt : SignerRuntime) (a b u v : Bytes)
    → IsLawful rt
    → field_of rt a ++ u ≡ field_of rt b ++ v
    → a ≡ b
unfolding field_of
field_of-apart rt a b u v l h =
    let h' =
      sym (append_assoc (rt.digits (length a)) (58 ∷ a) u)
      ∙ (h ∙ append_assoc (rt.digits (length b)) (58 ∷ b) v) in
    let (digits, rest) =
      cut_first 58 (rt.digits (length a)) (rt.digits (length b)) (a ++ u) (b ++ v)
        (l.digits_lack_colon (length a)) (l.digits_lack_colon (length b)) h' in
    same_front a b u v (l.digits_apart (length a) (length b) digits) rest

mac-apart :
    (rt : SignerRuntime) (kind : TicketKind) (target target' nonce : Bytes)
    → IsLawful rt
    → Told rt kind target target' nonce
    → mac rt kind target nonce ≡ mac rt kind target' nonce
    → target ≡ target'
unfolding audience
mac-apart rt kind target target' nonce l told h =
    let e =
      field_of-apart rt (audience kind target) (audience kind target') (field_of rt nonce)
        (field_of rt nonce) l (told h) in
    same_tail kind e
  where
    same_tail :
        (kind : TicketKind) → audience kind target ≡ audience kind target' → target ≡ target'
    same_tail upload e = cc
    same_tail download e = cc

cut_last-none : (s : Bytes) → Lacks 46 s → cut_last s ≡ none
unfolding cut_last
cut_last-none [] l = refl
cut_last-none (c ∷ s) l = rw (cut_last-none s l.1) (rw (l.0) refl)

cut_last-dot : (x y : Bytes) → Lacks 46 y → cut_last (x ++ 46 ∷ y) ≡ some (x, y)
unfolding cut_last
cut_last-dot [] y l = rw (cut_last-none y l) refl
cut_last-dot (c ∷ x) y l = rw (cut_last-dot x y l) refl

after-prefix : (p s : Bytes) → after_prefix p (p ++ s) ≡ s
unfolding after_prefix
after-prefix [] s = refl
after-prefix (c ∷ p) s = after-prefix p s

has-prefix : (p s : Bytes) → has_prefix p (p ++ s) ≡ true
unfolding has_prefix
has-prefix [] s = refl
has-prefix (c ∷ p) s = rw (has-prefix p s) (ground arith)

-- A value that is made for one kind is shown to the other.
other_prefix :
    (kind kind' : TicketKind) (s : Bytes)
    → has_prefix (prefix_for kind') (prefix_for kind ++ s) ≡ true
    → kind' ≡ kind
unfolding has_prefix
other_prefix upload upload s h = refl
other_prefix upload download s h = cc
other_prefix download upload s h = cc
other_prefix download download s h = refl

parts-own :
    (rt : SignerRuntime) (value : Bytes) (kind : TicketKind) (target nonce presented : Bytes)
    → 0 < length nonce
    → 0 < length presented
    → rt.equal presented (mac rt kind target nonce) ≡ true
    → verify_parts rt value kind target (some (nonce, presented)) ≡ some (rt.hash_token value)
unfolding verify_parts
parts-own rt value kind target [] presented n p e = absurd (omega arith)
parts-own rt value kind target (c ∷ nonce) [] n p e = absurd (omega arith)
parts-own rt value kind target (c ∷ nonce) (d ∷ presented) n p e = rw e refl

parts-equal :
    (rt : SignerRuntime) (value : Bytes) (kind : TicketKind) (target nonce presented h : Bytes)
    → verify_parts rt value kind target (some (nonce, presented)) ≡ some h
    → rt.equal presented (mac rt kind target nonce) ≡ true
unfolding verify_parts
parts-equal rt value kind target [] presented h e = cc
parts-equal rt value kind target (c ∷ nonce) [] h e = cc
parts-equal rt value kind target (c ∷ nonce) (d ∷ presented) h e = ground arith

not_some : (h : Bytes) → none ≡ some h → ⊥
not_some h e = cc

module _ (rt : SignerRuntime) (l : IsLawful rt) (kind : TicketKind) (target enc : Bytes) where
  cut-value :
      cut_last (after_prefix (prefix_for kind) (value_of rt kind target enc))
      ≡ some (enc, mac rt kind target enc)
  unfolding value_of mac
  cut-value =
      ap cut_last (after-prefix (prefix_for kind) (enc ++ 46 ∷ mac rt kind target enc))
      ∙ cut_last-dot enc (mac rt kind target enc) (l.mac_lacks_dot _)

  prefix-own : has_prefix (prefix_for kind) (value_of rt kind target enc) ≡ true
  unfolding value_of
  prefix-own = has-prefix (prefix_for kind) (enc ++ 46 ∷ mac rt kind target enc)

  mac-some : 0 < length (mac rt kind target enc)
  unfolding mac
  mac-some = l.mac_some _

  value-own :
      0 < length enc
      → verify rt (value_of rt kind target enc) kind target
        ≡ some (rt.hash_token (value_of rt kind target enc))
  unfolding verify
  value-own n =
      rw (prefix-own, cut-value)
        (parts-own rt (value_of rt kind target enc) kind target enc (mac rt kind target enc) n
          mac-some ((l.equal_iff (mac rt kind target enc) (mac rt kind target enc)).1 refl))

  shown-same :
      (kind' : TicketKind)
      → has_prefix (prefix_for kind') (value_of rt kind target enc) ≡ true
      → kind' ≡ kind
  unfolding value_of
  shown-same kind' = other_prefix kind kind' (enc ++ 46 ∷ mac rt kind target enc)

  parts-apart :
      (kind' : TicketKind) (target' h : Bytes)
      → Told rt kind target target' enc
      → kind' ≡ kind
      → verify_parts rt
          (value_of rt kind target enc)
          kind'
          target'
          (cut_last (after_prefix (prefix_for kind') (value_of rt kind target enc)))
        ≡ some h
      → target ≡ target'
  parts-apart kind' target' h told same e =
      let e' : verify_parts rt (value_of rt kind target enc) kind target'
            (cut_last (after_prefix (prefix_for kind) (value_of rt kind target enc)))
          ≡ some h =
        subst
          (λ k.
            verify_parts rt (value_of rt kind target enc) k target'
              (cut_last (after_prefix (prefix_for k) (value_of rt kind target enc)))
            ≡ some h)
          same e in
      let cut : verify_parts rt (value_of rt kind target enc) kind target'
            (some (enc, mac rt kind target enc))
          ≡ some h =
        rw cut-value at e' in
      let accepted =
        parts-equal rt (value_of rt kind target enc) kind target' enc (mac rt kind target enc) h
          cut in
      mac-apart rt kind target target' enc l told ((l.equal_iff _ _).0 accepted)

  value-apart :
      (kind' : TicketKind) (target' h : Bytes)
      → Told rt kind target target' enc
      → verify rt (value_of rt kind target enc) kind' target' ≡ some h
      → (kind' ≡ kind) × (target' ≡ target)
  unfolding verify
  value-apart kind' target' h told e =
      elim (Bool-cases (has_prefix (prefix_for kind') (value_of rt kind target enc))) [
        | inr other ↦ absurd (not_some h (rw other at e))
        | inl shown ↦
            let same = shown-same kind' shown in
            (same, sym (parts-apart kind' target' h told same (rw shown at e)))
      ]

minted :
    (rt : SignerRuntime) (nonce : Bytes) (kind : TicketKind) (target value h : Bytes)
    → mint rt (some nonce) kind target ≡ some (value, h)
    → (value ≡ value_of rt kind target (rt.encode nonce)) × (h ≡ rt.hash_token value)
unfolding mint
minted rt nonce kind target value h e = (cc, cc)

-- A ticket is redeemed for its own audience under the hash that it was stored with, and refused for
-- every other kind, and for another target from which the MAC tells it. The nonce is not empty, and
-- the encodings are as IsLawful says.
pub mint-verify :
    (rt : SignerRuntime) (nonce : Bytes) (kind : TicketKind) (target value h : Bytes)
    → IsLawful rt
    → 0 < length nonce
    → mint rt (some nonce) kind target ≡ some (value, h)
    → (kind' : TicketKind) (target' h' : Bytes) → Told rt kind target target' (rt.encode nonce)
    → (verify rt value kind target ≡ some h)
      × (verify rt value kind' target' ≡ some h' → (kind' ≡ kind) × (target' ≡ target))
mint-verify rt nonce kind target value h l n e kind' target' h' told =
    let (made, hashed) = minted rt nonce kind target value h e in
    let enc = rt.encode nonce in
    rw (hashed, made)
      (
        value-own rt l kind target enc (l.encode_some nonce n),
        value-apart rt l kind target enc kind' target' h' told,
      )
