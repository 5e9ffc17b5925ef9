-- ===== src/Media/Ticket/Tests.antt =====
-- internal/media/ticket.go: a ticket of a runtime whose MAC is the message, moved past the dot.
use agent_gm.Prelude.{
  ℕ, zero, suc, ◌+◌, ◌≡◌, refl, ap, sym, subst, ◌∙◌, ◌↔◌, Bool, true, false, ◌&&◌, some, [], ◌∷◌,
  length, arith, ◌==◌,
}
use agent_gm.Media.Ticket.{Bytes, download, SignerRuntime, mac, value_of, mint, verify}
use agent_gm.Media.Ticket.Redeeming.{IsLawful, Told, Lacks, mint-verify}

abbrev moved : Bytes → Bytes
moved [] = []
moved (c ∷ s) = (c + 60) ∷ moved s

abbrev marked : Bytes → Bytes
marked s = 60 ∷ moved s

abbrev tally : ℕ → Bytes
tally zero = []
tally (suc n) = 49 ∷ tally n

abbrev same_bytes : Bytes → Bytes → Bool
same_bytes [] [] = true
same_bytes (a ∷ s) (b ∷ t) = let rest = same_bytes s t in a == b && rest
same_bytes _ _ = false

abbrev rt : SignerRuntime
rt = record {
  mac_of = marked;
  encode = moved;
  digits = tally;
  hash_token = λ s. s;
  equal = same_bytes;
}

moved-Lacks_dot : (s : Bytes) → Lacks 46 (moved s)
moved-Lacks_dot [] = tt
moved-Lacks_dot (c ∷ s) = (ground arith, moved-Lacks_dot s)

moved-apart : (s t : Bytes) → moved s ≡ moved t → s ≡ t
moved-apart [] [] h = refl
moved-apart [] (b ∷ t) h = cc
moved-apart (a ∷ s) [] h = cc
moved-apart (a ∷ s) (b ∷ t) h =
    let (e, k) = parts (a + 60) (b + 60) (moved s) (moved t) h in
    let e' : a ≡ b = omega arith in rw (e', moved-apart s t k) refl
  where
    parts : (x y : ℕ) (u v : Bytes) → x ∷ u ≡ y ∷ v → (x ≡ y) × (u ≡ v)
    parts x y u v h = (cc, cc)

tally-Lacks_colon : (n : ℕ) → Lacks 58 (tally n)
tally-Lacks_colon zero = tt
tally-Lacks_colon (suc n) = (refl, tally-Lacks_colon n)

length-tally : (n : ℕ) → length (tally n) ≡ n
length-tally zero = refl
length-tally (suc n) = ap suc (length-tally n)

tally-apart : (n m : ℕ) → tally n ≡ tally m → n ≡ m
tally-apart n m h = sym (length-tally n) ∙ (ap length h ∙ length-tally m)

length-moved : (s : Bytes) → length (moved s) ≡ length s
length-moved [] = refl
length-moved (c ∷ s) = ap suc (length-moved s)

same_bytes_iff : (s t : Bytes) → (same_bytes s t ≡ true) ↔ (s ≡ t)
same_bytes_iff s t = (to s t, λ e. subst (λ x. same_bytes s x ≡ true) e (self s))
  where
    to : (s t : Bytes) → same_bytes s t ≡ true → s ≡ t
    to [] [] h = refl
    to [] (b ∷ t) h = cc
    to (a ∷ s) [] h = cc
    to (a ∷ s) (b ∷ t) h =
        let e : a ≡ b = ground arith in
        let k : same_bytes s t ≡ true = ground arith in rw (e, to s t k) refl

    self : (s : Bytes) → same_bytes s s ≡ true
    self [] = refl
    self (a ∷ s) = rw (self s) (ground arith)

rt-IsLawful : IsLawful rt
rt-IsLawful = record {
  mac_lacks_dot = λ m. (refl, moved-Lacks_dot m);
  mac_some = λ m. omega arith;
  encode_some = λ n h. rw (length-moved n) h;
  digits_lack_colon = tally-Lacks_colon;
  digits_apart = tally-apart;
  equal_iff = same_bytes_iff;
}

abbrev nonce : Bytes
nonce = 7 ∷ 8 ∷ 9 ∷ []

abbrev target : Bytes
target = 1 ∷ 2 ∷ []

abbrev value : Bytes
value = value_of rt download target (moved nonce)

is_minted : mint rt (some nonce) download target ≡ some (value, value)
unfolding mint
is_minted = refl

told : (s : Bytes) → Told rt download target s (moved nonce)
unfolding mac
told s h = moved-apart _ _ (tail h)
  where
    tail : {x y : ℕ} {u v : Bytes} → x ∷ u ≡ y ∷ v → u ≡ v
    tail h = cc

mint-verify_example :
    (verify rt value download target ≡ some value)
    × (verify rt value download (1 ∷ []) ≡ some value → (download ≡ download) × (1 ∷ [] ≡ target))
mint-verify_example =
    mint-verify rt nonce download target value value rt-IsLawful (omega arith) is_minted download
      (1 ∷ []) value (told (1 ∷ []))
