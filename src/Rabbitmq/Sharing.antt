-- ===== src/Rabbitmq/Sharing.antt =====
-- Tasks that take channels from src/rabbitmq/rabbitmq-connection.service.ts and give them back, in
-- any order of their steps: `getChannel` waits once, while a new channel connects.
use secondhand_api.Prelude.{
  ℕ, ◌+◌, ◌≤◌, true, none, some, List, [], ◌∷◌, ◌≡◌, sym, subst, arith, not,
}
use secondhand_api.Rabbitmq.Channels.{
  count, has, remove, count-add, count-remove, count-append, find-some,
}
use secondhand_api.Rabbitmq.ConnectionService.{
  Connection, create_channel, lend, admit, find_available, release_channel,
}

-- The service, the channels that are not connected yet, and those that tasks hold.
pub record System : Type 0 where
  pub service : Connection
  pub waiting : List ℕ
  pub held : List ℕ

pub data Step (s u : System) : Type 0 where
  -- getChannel, with a channel that is free
  take_free :
      (c : ℕ)
      → find_available s.service ≡ some c
      → u ≡ record s { service = lend c s.service; held = c ∷ s.held }
      → Step s u
  -- getChannel up to waitForConnect, with none free
  open_new :
      find_available s.service ≡ none
      → u ≡ record s { service = create_channel s.service; waiting = s.service.created ∷ s.waiting }
      → Step s u
  -- getChannel from there on
  connected :
      (c : ℕ)
      → has c s.waiting ≡ true
      → u ≡ record { service = admit c s.service; waiting = remove c s.waiting; held = c ∷ s.held }
      → Step s u
  refused :
      (c : ℕ) → has c s.waiting ≡ true → u ≡ record s { waiting = remove c s.waiting } → Step s u
  -- releaseChannel
  give_back :
      (c : ℕ)
      → has c s.held ≡ true
      → u ≡ record s { service = release_channel c s.service; held = remove c s.held }
      → Step s u

pub data Reach (s : System) : System → Type 0 where
  here : Reach s s
  next : {t u : System} → Reach s t → Step t u → Reach s u

-- A set of channels in use that is the channels held, all of the pool, and none of them twice.
pub record IsShared (s : System) : Type 0 where
  pub lent : (c : ℕ) → count c s.held ≡ count c s.service.channels_in_use
  pub pooled : (c : ℕ) → count c s.held ≤ count c s.service.channel_pool
  pub once : (c : ℕ) → count c s.service.channel_pool + count c s.waiting ≤ 1
  pub fresh :
      (c : ℕ) → s.service.created ≤ c → count c s.service.channel_pool + count c s.waiting ≡ 0

module _ {s : System} (v : IsShared s) where
  take_free-IsShared :
      (c : ℕ)
      → find_available s.service ≡ some c
      → IsShared (record s { service = lend c s.service; held = c ∷ s.held })
  unfolding find_available lend
  take_free-IsShared c found =
      let free =
        find-some (λ x. not (has x s.service.channels_in_use)) s.service.channel_pool c found in
      record {
        lent = λ d. ground (arith, free, v.lent d, count-add c d s.service.channels_in_use);
        pooled = λ d. ground (arith, free, v.lent c, v.pooled d);
        once = v.once;
        fresh = v.fresh;
      }

  open_new-IsShared :
      IsShared
        (record s { service = create_channel s.service; waiting = s.service.created ∷ s.waiting })
  open_new-IsShared = record {
    lent = v.lent;
    pooled = v.pooled;
    once = λ d. ground (arith, v.once d, v.fresh d);
    fresh = λ d h. ground (arith, v.fresh d);
  }

  connected-IsShared :
      (c : ℕ)
      → has c s.waiting ≡ true
      → IsShared
          (record { service = admit c s.service; waiting = remove c s.waiting; held = c ∷ s.held })
  unfolding admit
  connected-IsShared c there = record {
    lent = λ d.
        ground (
          arith,
          v.lent d,
          v.pooled c,
          v.lent c,
          v.once c,
          count-add c d s.service.channels_in_use,
        );
    pooled = λ d. ground (arith, v.pooled d, count-append d s.service.channel_pool (c ∷ []));
    once = λ d. ground (
      arith,
      v.once d,
      count-append d s.service.channel_pool (c ∷ []),
      count-remove c d s.waiting,
    );
    fresh = λ d h. ground (
      arith,
      v.fresh d,
      v.fresh c,
      count-append d s.service.channel_pool (c ∷ []),
      count-remove c d s.waiting,
    );
  }

  refused-IsShared : (c : ℕ) → IsShared (record s { waiting = remove c s.waiting })
  refused-IsShared c = record {
    lent = v.lent;
    pooled = v.pooled;
    once = λ d. ground (arith, v.once d, count-remove c d s.waiting);
    fresh = λ d h. ground (arith, v.fresh d, count-remove c d s.waiting);
  }

  give_back-IsShared :
      (c : ℕ)
      → has c s.held ≡ true
      → IsShared (record s { service = release_channel c s.service; held = remove c s.held })
  unfolding release_channel
  give_back-IsShared c there = record {
    lent = λ d. ground (
      arith,
      v.lent d,
      v.lent c,
      count-remove c d s.service.channels_in_use,
      count-remove c d s.held,
    );
    pooled = λ d. ground (arith, v.pooled d, count-remove c d s.held);
    once = λ d. ground (arith, v.once d);
    fresh = λ d h. ground (arith, v.fresh d);
  }

Step-IsShared : {s u : System} → Step s u → IsShared s → IsShared u
Step-IsShared (take_free c found e) v = subst IsShared (sym e) (take_free-IsShared v c found)
Step-IsShared (open_new none_free e) v = subst IsShared (sym e) (open_new-IsShared v)
Step-IsShared (connected c there e) v = subst IsShared (sym e) (connected-IsShared v c there)
Step-IsShared (refused c there e) v = subst IsShared (sym e) (refused-IsShared v c)
Step-IsShared (give_back c there e) v = subst IsShared (sym e) (give_back-IsShared v c there)

pub Reach-IsShared : {s u : System} → Reach s u → IsShared s → IsShared u
Reach-IsShared here v = v
Reach-IsShared (next r st) v = Step-IsShared st (Reach-IsShared r v)
