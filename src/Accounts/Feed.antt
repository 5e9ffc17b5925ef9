-- ===== src/Accounts/Feed.antt =====
-- internal/accounts/state.go: the feed of state changes. A subscription's channel is its queue; a send
-- that finds it full is counted and goes nowhere. The subscriptions are in the order in which they
-- were made, since what a send does to one does not depend on the others.
pub mod Delivering
use agent_gm.Prelude.{
  ℕ, suc, ◌+◌, Bool, true, false, ◌||◌, ◌&&◌, not, Option, none, some, String, List, [], ◌∷◌, ◌++◌,
  length, ltb, ◌==◌, str_eq, if◌then◌else◌,
}
use agent_gm.Prelude.Rows.{update_where, delete_where, first_where}
use agent_gm.Accounts.State.{StateChange}

abbrev pub subscriber_buffer : ℕ
subscriber_buffer = 64

pub record Subscription : Type 0 where
  pub id : ℕ
  pub account_id : String
  pub queue : List StateChange
  pub dropped : ℕ

pub record Feed : Type 0 where
  pub next : ℕ
  pub subs : List Subscription

unfoldable pub subscribe : String → Feed → Subscription × Feed
subscribe account_id f =
    let sub : Subscription = record {
      id = suc f.next;
      account_id = account_id;
      queue = [];
      dropped = 0;
    } in
    (sub, record { next = suc f.next; subs = f.subs ++ sub ∷ [] })

-- A subscription of no account follows all.
unfoldable pub follows : String → StateChange → Bool
follows id ev = str_eq id "" || str_eq id ev.account_id

-- The non-blocking send.
unfoldable pub offer : StateChange → Subscription → Subscription
offer ev sub =
    if ltb (length sub.queue) subscriber_buffer
    then record sub { queue = sub.queue ++ ev ∷ [] }
    else record sub { dropped = suc sub.dropped }

unfoldable pub publish : StateChange → Feed → Feed
unfolding update_where offer follows
publish ev f = record f { subs = update_where (λ sub. follows sub.account_id ev) (offer ev) f.subs }

abbrev pub has_sub_id : ℕ → Subscription → Bool
has_sub_id id sub = sub.id == id

-- A receive of the subscriber: the oldest change, if there is one.
unfoldable pub pop_queue : Subscription → List StateChange → Option StateChange × Subscription
pop_queue sub [] = (none, sub)
pop_queue sub (ev ∷ rest) = (some ev, record sub { queue = rest })

unfoldable pub pop : Subscription → Option StateChange × Subscription
unfolding pop_queue
pop sub = pop_queue sub sub.queue

unfoldable pub close : ℕ → Feed → Feed
unfolding delete_where
close id f = record f { subs = delete_where (has_sub_id id) f.subs }
