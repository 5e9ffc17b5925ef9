-- ===== src/Accounts/Feed/Delivering.antt =====
-- internal/accounts/state.go: what a subscriber gets of the changes that it follows.
use agent_gm.Prelude.{
  ℕ, suc, ◌+◌, ◌≤◌, ◌≡◌, false, All, All-weaken, ◌==◌, refl, sym, ap, subst, Option, none, some,
  String, List, [], ◌∷◌, ◌++◌, length, length-append, ltb, arith, if◌then◌else◌, Bool-cases, inl,
  inr, ◌∙◌,
}
use agent_gm.Prelude.Rows.{
  first_where, first-where_holds, first-update_where, first-append, update_where, delete_where,
}
use agent_gm.Accounts.State.{StateChange}
use agent_gm.Accounts.Feed.{
  Subscription, Feed, subscriber_buffer, follows, offer, publish, pop, pop_queue, subscribe, close,
  has_sub_id,
}

-- The first list is the second with some elements left out.
pub data IsSublist {A : Type 0} : List A → List A → Type 0 where
  ends : IsSublist [] []
  keeps : (x : A) {xs ys : List A} → IsSublist xs ys → IsSublist (x ∷ xs) (x ∷ ys)
  skips : (x : A) {xs ys : List A} → IsSublist xs ys → IsSublist xs (x ∷ ys)

IsSublist-snoc :
    {A : Type 0} {xs ys : List A} (x : A)
    → IsSublist xs ys
    → IsSublist (xs ++ x ∷ []) (ys ++ x ∷ [])
IsSublist-snoc x ends = keeps x ends
IsSublist-snoc x (keeps y h) = keeps y (IsSublist-snoc x h)
IsSublist-snoc x (skips y h) = skips y (IsSublist-snoc x h)

IsSublist-skip :
    {A : Type 0} {xs ys : List A} (x : A) → IsSublist xs ys → IsSublist xs (ys ++ x ∷ [])
IsSublist-skip x ends = skips x ends
IsSublist-skip x (keeps y h) = keeps y (IsSublist-skip x h)
IsSublist-skip x (skips y h) = skips y (IsSublist-skip x h)

-- What happens to the feed: a change is published, the subscription's own reader receives, another
-- reader subscribes, or a subscription is closed.
pub data Happening : Type 0 where
  publishes : StateChange → Happening
  receives : Happening
  joins : String → Happening
  leaves : ℕ → Happening

-- A subscription with what its reader has received.
pub record Reader : Type 0 where
  pub sub : Subscription
  pub received : List StateChange

-- The feed, and what the reader of one of its subscriptions has received.
pub record Reading : Type 0 where
  pub feed : Feed
  pub received : List StateChange

abbrev add_received : Option StateChange → List StateChange → List StateChange
add_received none got = got
add_received (some ev) got = got ++ ev ∷ []

-- The reader of the subscription of this ID receives.
abbrev receive_own : ℕ → Option Subscription → Reading → Reading
receive_own id none w = w
receive_own id (some sub) w = record {
  feed = record w.feed { subs = update_where (has_sub_id id) (λ s. (pop s).1) w.feed.subs };
  received = add_received (pop sub).0 w.received;
}

unfoldable pub happen : ℕ → Happening → Reading → Reading
unfolding publish pop subscribe close first_where update_where
happen id (publishes ev) w = record w { feed = publish ev w.feed }
happen id receives w = receive_own id (first_where (has_sub_id id) w.feed.subs) w
happen id (joins account_id) w = record w { feed = (subscribe account_id w.feed).1 }
happen id (leaves other) w = record w { feed = close other w.feed }

unfoldable pub happen_all : ℕ → List Happening → Reading → Reading
unfolding happen
happen_all id [] w = w
happen_all id (h ∷ rest) w = happen_all id rest (happen id h w)

-- The subscription of this ID is not the one that is closed.
abbrev pub LeavesOpen : ℕ → Happening → Type 0
LeavesOpen id (leaves other) = (id == other) ≡ false
LeavesOpen id h = Unit {0}

-- The changes of a history that the subscription follows, in order.
unfoldable pub followed_in : String → List Happening → List StateChange
followed_in id [] = []
followed_in id (receives ∷ rest) = followed_in id rest
followed_in id (joins other ∷ rest) = followed_in id rest
followed_in id (leaves other ∷ rest) = followed_in id rest
followed_in id (publishes ev ∷ rest) =
    let more = followed_in id rest in if follows id ev then ev ∷ more else more

-- After a history whose followed changes are `seen`.
pub record IsServed (account_id : String) (seen : List StateChange) (r : Reader) : Type 0 where
  pub own : r.sub.account_id ≡ account_id
  pub bounded : length r.sub.queue ≤ subscriber_buffer
  pub in_order : IsSublist (r.received ++ r.sub.queue) seen
  pub accounted : length r.received + length r.sub.queue + r.sub.dropped ≡ length seen

append_assoc : {A : Type 0} (xs ys zs : List A) → (xs ++ ys) ++ zs ≡ xs ++ (ys ++ zs)
append_assoc [] ys zs = refl
append_assoc (x ∷ xs) ys zs = ap (λ l. x ∷ l) (append_assoc xs ys zs)

append_nil : {A : Type 0} (xs : List A) → xs ++ [] ≡ xs
append_nil [] = refl
append_nil (x ∷ xs) = ap (λ l. x ∷ l) (append_nil xs)

length-snoc : {A : Type 0} (xs : List A) (x : A) → length (xs ++ x ∷ []) ≡ length xs + 1
length-snoc xs x = length-append xs (x ∷ [])

offer-IsServed :
    (id : String) (seen : List StateChange) (r : Reader) (ev : StateChange)
    → IsServed id seen r
    → IsServed id (seen ++ ev ∷ []) (record r { sub = offer ev r.sub })
unfolding offer
offer-IsServed id seen r ev v = elim (Bool-cases (ltb (length r.sub.queue) subscriber_buffer)) [
  | inl room ↦ rw room (record {
    own = v.own;
    bounded = rw (length-snoc r.sub.queue ev) (ground arith);
    in_order =
        rw (sym (append_assoc r.received r.sub.queue (ev ∷ []))) (IsSublist-snoc ev v.in_order);
    accounted = rw (length-snoc r.sub.queue ev, length-snoc seen ev) (omega (arith, v.accounted));
  })
  | inr full ↦ rw full (record {
    own = v.own;
    bounded = v.bounded;
    in_order = IsSublist-skip ev v.in_order;
    accounted = rw (length-snoc seen ev) (omega (arith, v.accounted));
  })
]

receive-IsServed :
    (id : String) (seen : List StateChange) (r : Reader) (q : List StateChange)
    → r.sub.queue ≡ q
    → IsServed id seen r
    → IsServed id seen (record {
      sub = (pop_queue r.sub q).1;
      received = add_received (pop_queue r.sub q).0 r.received;
    })
unfolding pop_queue
receive-IsServed id seen r [] e v = v
receive-IsServed id seen r (ev ∷ rest) e v = record {
  own = v.own;
  bounded = let b = v.bounded in let k = rw e at b in omega arith;
  in_order = let o = v.in_order in rw (append_assoc r.received (ev ∷ []) rest) (rw e at o);
  accounted =
      let a = v.accounted in rw (length-snoc r.received ev) (let k = rw e at a in omega arith);
}

-- The feed holds the subscription, and its reader is served.
pub record IsServing (id : ℕ) (account_id : String) (seen : List StateChange) (w : Reading)
    : Type 0 where
  pub sub : Subscription
  pub held : first_where (has_sub_id id) w.feed.subs ≡ some sub
  pub served : IsServed account_id seen (record { sub = sub; received = w.received })

pop_queue-id : (sub : Subscription) (q : List StateChange) → (pop_queue sub q).1.id ≡ sub.id
unfolding pop_queue
pop_queue-id sub [] = refl
pop_queue-id sub (ev ∷ rest) = refl

offer-id : (ev : StateChange) (sub : Subscription) → (offer ev sub).id ≡ sub.id
unfolding offer
offer-id ev sub = ground arith

held-close :
    (id other : ℕ) (subs : List Subscription) (sub : Subscription)
    → (id == other) ≡ false
    → first_where (has_sub_id id) subs ≡ some sub
    → first_where (has_sub_id id) (delete_where (has_sub_id other) subs) ≡ some sub
unfolding first_where delete_where
held-close id other [] sub h e = cc
held-close id other (x ∷ subs) sub h e = ground (arith, held-close id other subs sub h)

publish-IsServing :
    (id : ℕ) (account_id : String) (seen : List StateChange) (ev : StateChange) (w : Reading)
    → IsServing id account_id seen w
    → IsServing id account_id
        (seen ++ followed_in account_id (publishes ev ∷ []))
        (record w { feed = publish ev w.feed })
unfolding publish followed_in
publish-IsServing id account_id seen ev w v =
    let after =
      first-update_where (has_sub_id id) (λ sub. follows sub.account_id ev) (offer ev) w.feed.subs
        (λ x. ap (λ i. i == id) (offer-id ev x)) in
    elim (Bool-cases (follows account_id ev)) [
      | inl here ↦ rw here (record {
        sub = offer ev v.sub;
        held = after ∙ rw (v.held, v.served.own, here) refl;
        served = offer-IsServed account_id seen _ ev v.served;
      })
      | inr elsewhere ↦
          rw (elsewhere, append_nil seen)
            (record {
              sub = v.sub;
              held = after ∙ rw (v.held, v.served.own, elsewhere) refl;
              served = v.served;
            })
    ]

receive-IsServing :
    (id : ℕ) (account_id : String) (seen : List StateChange) (w : Reading)
    → IsServing id account_id seen w
    → IsServing id account_id seen (receive_own id (first_where (has_sub_id id) w.feed.subs) w)
unfolding pop
receive-IsServing id account_id seen w v =
    let named = first-where_holds (has_sub_id id) w.feed.subs v.sub v.held in
    let after =
      first-update_where (has_sub_id id) (has_sub_id id) (λ s. (pop s).1) w.feed.subs
        (λ x. ap (λ i. i == id) (pop_queue-id x x.queue)) in
    rw (v.held) (record {
      sub = (pop_queue v.sub v.sub.queue).1;
      held = after ∙ rw (v.held, named) refl;
      served =
          receive-IsServed account_id seen (record { sub = v.sub; received = w.received })
            v.sub.queue refl v.served;
    })

happen-IsServing :
    (id : ℕ) (account_id : String) (seen : List StateChange) (h : Happening) (w : Reading)
    → LeavesOpen id h
    → IsServing id account_id seen w
    → IsServing id account_id (seen ++ followed_in account_id (h ∷ [])) (happen id h w)
unfolding happen followed_in subscribe close
happen-IsServing id account_id seen (publishes ev) w o v =
    publish-IsServing id account_id seen ev w v
happen-IsServing id account_id seen receives w o v =
    rw (append_nil seen) (receive-IsServing id account_id seen w v)
happen-IsServing id account_id seen (joins other) w o v = rw (append_nil seen) (record {
  sub = v.sub;
  held = first-append (has_sub_id id) w.feed.subs v.sub _ v.held;
  served = v.served;
})
happen-IsServing id account_id seen (leaves other) w o v = rw (append_nil seen) (record {
  sub = v.sub;
  held = held-close id other w.feed.subs v.sub o v.held;
  served = v.served;
})

followed_in-append :
    (id : String) (h : Happening) (hs : List Happening)
    → followed_in id (h ∷ []) ++ followed_in id hs ≡ followed_in id (h ∷ hs)
unfolding followed_in
followed_in-append id (publishes ev) hs = ground arith
followed_in-append id receives hs = refl
followed_in-append id (joins other) hs = refl
followed_in-append id (leaves other) hs = refl

happen_all-IsServing :
    (id : ℕ) (account_id : String) (hs : List Happening) (seen : List StateChange) (w : Reading)
    → All (LeavesOpen id) hs
    → IsServing id account_id seen w
    → IsServing id account_id (seen ++ followed_in account_id hs) (happen_all id hs w)
unfolding happen_all followed_in
happen_all-IsServing id account_id [] seen w o v = rw (append_nil seen) v
happen_all-IsServing id account_id (h ∷ hs) seen w o v =
    let more =
      happen_all-IsServing id account_id hs (seen ++ followed_in account_id (h ∷ []))
        (happen id h w) o.1 (happen-IsServing id account_id seen h w o.0 v) in
    subst (λ l. IsServing id account_id l (happen_all id hs (happen id h w)))
      (append_assoc seen (followed_in account_id (h ∷ [])) (followed_in account_id hs)
        ∙ ap (λ l. seen ++ l) (followed_in-append account_id h hs))
      more

sublist-length : {A : Type 0} {xs ys : List A} → IsSublist xs ys → length xs ≤ length ys
sublist-length ends = omega arith
sublist-length (keeps x h) = omega (arith, sublist-length h)
sublist-length (skips x h) = omega (arith, sublist-length h)

sublist_full : {A : Type 0} {xs ys : List A} → IsSublist xs ys → length ys ≤ length xs → xs ≡ ys
sublist_full ends h = refl
sublist_full (keeps x h) k = ap (λ l. x ∷ l) (sublist_full h (omega arith))
sublist_full (skips x h) k = let l = sublist-length h in absurd (omega arith)

-- The IDs of a feed's subscriptions are those that it has given out.
abbrev pub IsNumbered : Feed → Type 0
IsNumbered f = All (λ sub. sub.id ≤ f.next) f.subs

new_held :
    (id : ℕ) (subs : List Subscription) (sub : Subscription)
    → sub.id ≡ id
    → All (λ x. suc x.id ≤ id) subs
    → first_where (has_sub_id id) (subs ++ sub ∷ []) ≡ some sub
unfolding first_where
new_held id [] sub e h = ground arith
new_held id (x ∷ subs) sub e h = let k = h.0 in ground (arith, new_held id subs sub e h.1)

subscribe-IsServing :
    (account_id : String) (f : Feed)
    → IsNumbered f
    → IsServing
        (suc f.next)
        account_id
        []
        (record { feed = (subscribe account_id f).1; received = [] })
unfolding subscribe
subscribe-IsServing account_id f numbered = record {
  sub = (subscribe account_id f).0;
  held = new_held (suc f.next) f.subs (subscribe account_id f).0 refl (
      All-weaken (λ x. x.id ≤ f.next) (λ x. suc x.id ≤ suc f.next) f.subs (λ x k. omega arith)
        numbered);
  served = record { own = refl; bounded = omega arith; in_order = ends; accounted = omega arith };
}

-- A reader that subscribes to the feed, after what happens to the feed then.
abbrev pub reading_after : String → Feed → List Happening → Reading
reading_after account_id f hs =
    happen_all (subscribe account_id f).0.id hs
      (record { feed = (subscribe account_id f).1; received = [] })

-- Whatever is published to a feed, received from it, subscribed to it and closed, from the moment that
-- a reader subscribes and as long as its own subscription is not closed: the feed holds that
-- subscription, whose queue never exceeds the buffer; what its reader has received and what waits for
-- it are changes that it follows, in the order in which they were published; each change that it
-- follows was received, waits, or was counted as dropped; and where none was dropped it has or will
-- get them all. The feed has given out the IDs of its subscriptions.
pub subscribe-IsServed :
    (account_id : String) (f : Feed) (hs : List Happening)
    → IsNumbered f
    → All (LeavesOpen (subscribe account_id f).0.id) hs
    → let w = reading_after account_id f hs in
      (sub : Subscription) × (first_where (has_sub_id (subscribe account_id f).0.id) w.feed.subs
        ≡ some sub)
      × IsServed account_id
          (followed_in account_id hs)
          (record { sub = sub; received = w.received })
      × (sub.dropped ≡ 0 → w.received ++ sub.queue ≡ followed_in account_id hs)
unfolding subscribe
subscribe-IsServed account_id f hs numbered stays =
    let v =
      happen_all-IsServing (suc f.next) account_id hs [] _ stays
        (subscribe-IsServing account_id f numbered) in
    let w = reading_after account_id f hs in
    (
      v.sub,
      v.held,
      v.served,
      λ none_dropped. sublist_full v.served.in_order (
          let n = length-append w.received v.sub.queue in
          let a = v.served.accounted in omega arith),
    )
