-- ===== src/Rabbitmq/ConnectionService.antt =====
-- src/rabbitmq/rabbitmq-connection.service.ts: the pool of channels. amqp-connection-manager is a
-- parameter: whether the n-th channel connects, closes, accepts a declaration or a message.
use secondhand_api.Prelude.{
  ℕ, zero, suc, ◌+◌, Bool, not, ◌&&◌, true, Option, none, some, List, [], ◌∷◌, ◌++◌, eqb, ltb,
  length, if◌then◌else◌,
}
use secondhand_api.Http.{ok, err, failure}
use secondhand_api.Exec.{ignore_failure, Exec, pure, throw, ◌>>◌}
use secondhand_api.Rabbitmq.Channels.{add, remove, find, has}
use secondhand_api.Rabbitmq.Topology.{Declaration, infrastructure}

pub record Amqp : Type 0 where
  -- await channel.waitForConnect()
  pub connects : ℕ → Bool
  -- await channel.close()
  pub closes : ℕ → Bool
  -- an assertion or a binding
  pub declares : Declaration → Bool
  -- the i-th message that is published
  pub accepts : ℕ → Bool
  -- connection.isConnected()
  pub is_connected : Bool

-- `channelPool` and `channelsInUse`; how many channels were created, and what was declared.
pub record Connection : Type 0 where
  pub channel_pool : List ℕ
  pub channels_in_use : List ℕ
  pub created : ℕ
  pub declared : List Declaration

-- connection.createChannel(…): an object that is no other's
abbrev pub create_channel : Connection → Connection
create_channel s = record s { created = suc s.created }

-- What `getChannel` does once it has a channel: with one of the pool, and with a new one.
unfoldable pub lend : ℕ → Connection → Connection
unfolding add
lend c s = record s { channels_in_use = add c s.channels_in_use }

unfoldable pub admit : ℕ → Connection → Connection
unfolding add
admit c s = record s {
  channel_pool = s.channel_pool ++ c ∷ [];
  channels_in_use = add c s.channels_in_use;
}

unfoldable pub find_available : Connection → Option ℕ
unfolding find
find_available s = find (λ c. not (has c s.channels_in_use)) s.channel_pool

unfoldable pub release_channel : ℕ → Connection → Connection
unfolding remove
release_channel c s =
    if has c s.channels_in_use then record s { channels_in_use = remove c s.channels_in_use } else s

-- The first channel, for older callers.
unfoldable pub get_channel_wrapper : Exec Connection ℕ
get_channel_wrapper s = elim s.channel_pool [
  | [] ↦ (err (failure "RabbitMQ 채널이 초기화되지 않았습니다."), s)
  | c ∷ _ ↦ (ok c, s)
]

module _ ⦃m : Amqp⦄ where
  -- await channel.waitForConnect()
  abbrev pub wait_for_connect : ℕ → Exec Connection (Unit {0})
  wait_for_connect c = if m.connects c then pure tt else throw (failure "connect")

  unfoldable pub open_channel : Exec Connection ℕ
  unfolding admit
  open_channel s =
      let c = s.created in (do wait_for_connect c; λ s1. (ok c, admit c s1)) (create_channel s)

  unfoldable pub get_channel : Exec Connection ℕ
  unfolding find_available lend open_channel
  get_channel s = elim (find_available s) [ some c ↦ (ok c, lend c s) | none ↦ open_channel s ]

  -- One call after the other, up to the first that is rejected.
  unfoldable pub declare_all : List Declaration → Exec Connection (Unit {0})
  declare_all [] s = (ok tt, s)
  declare_all (d ∷ ds) s =
      let rest = declare_all ds (record s { declared = s.declared ++ d ∷ [] }) in
      if m.declares d then rest else (err (failure "declare"), s)

  unfoldable pub setup_infrastructure : Exec Connection (Unit {0})
  unfolding declare_all infrastructure
  setup_infrastructure = declare_all infrastructure

  -- The `setup` of the i-th channel: the first one declares the infrastructure.
  unfoldable pub setup : ℕ → Exec Connection (Unit {0})
  unfolding setup_infrastructure
  setup i = if eqb i 0 then setup_infrastructure else pure tt

  unfoldable pub join_pool : ℕ → Exec Connection (Unit {0})
  join_pool c = do
    wait_for_connect c
    λ s. (ok tt, record s { channel_pool = s.channel_pool ++ c ∷ [] })

  -- A round of `createChannelPool`. The library reports a failing `setup` by an event on the channel,
  -- and `waitForConnect` goes on.
  unfoldable pub create_pooled : ℕ → Exec Connection (Unit {0})
  unfolding setup join_pool
  create_pooled i s = (do ignore_failure (setup i); join_pool s.created) (create_channel s)

  -- `for (let i …; i < poolSize; i++)`, by the rounds that are left.
  unfoldable pub create_channel_pool : ℕ → ℕ → Exec Connection (Unit {0})
  unfolding create_pooled
  create_channel_pool zero i = pure tt
  create_channel_pool (suc n) i = do create_pooled i; create_channel_pool n (i + 1)

  unfoldable pub connect : ℕ → Exec Connection (Unit {0})
  unfolding create_channel_pool
  connect pool_size = create_channel_pool pool_size 0

  unfoldable pub close_all : List ℕ → Bool
  close_all [] = true
  close_all (c ∷ cs) = m.closes c && close_all cs

  -- A channel that cannot be closed is logged only, and leaves the pool as it was.
  unfoldable pub disconnect : Connection → Connection
  unfolding close_all
  disconnect s =
      if close_all s.channel_pool then record s { channel_pool = []; channels_in_use = [] } else s

  unfoldable pub is_channel_connected : Connection → Bool
  is_channel_connected s = ltb 0 (length s.channel_pool) && m.is_connected
