-- ===== src/Rabbitmq/Pooling.antt =====
-- From the pool that src/rabbitmq/rabbitmq-connection.service.ts creates at the start, and
-- `getChannel` as steps of one task.
use secondhand_api.Prelude.{
  ℕ, zero, suc, ◌+◌, ◌≤◌, ◌<◌, true, List, [], ◌∷◌, ◌≡◌, refl, sym, arith, Bool-cases, Option-cases,
  ◌++◌, subst, eqb, length, length-append, ◌∙◌, inl, inr, ap, not,
}
use secondhand_api.Http.{ok}
use secondhand_api.Exec.{ignore_failure, >>=-eq-ok}
use secondhand_api.Rabbitmq.Channels.{count, has, count-append, find-some, find-none, remove}
use secondhand_api.Rabbitmq.ConnectionService.{
  Amqp, Connection, create_channel, lend, admit, find_available, open_channel, get_channel,
  create_pooled, create_channel_pool, connect, setup, join_pool, declare_all, setup_infrastructure,
}
use secondhand_api.Rabbitmq.Topology.{Declaration, infrastructure}
use secondhand_api.Rabbitmq.Sharing.{
  System, take_free, open_new, connected, Reach, here, next, IsShared, Reach-IsShared,
}

-- Nothing lent out yet, and the pool made of different channels.
abbrev pub unshared : Connection → System
unshared s = record { service = s; waiting = []; held = [] }

abbrev pub initial : Connection
initial = record { channel_pool = []; channels_in_use = []; created = 0; declared = [] }

abbrev SameChannels : Connection → Connection → Type 0
SameChannels s s' =
    (s'.channel_pool ≡ s.channel_pool)
    × (s'.channels_in_use ≡ s.channels_in_use)
    × (s'.created ≡ s.created)

record IsNew (s : Connection) : Type 0 where
  lent : s.channels_in_use ≡ []
  once : (c : ℕ) → count c s.channel_pool ≤ 1
  fresh : (c : ℕ) → s.created ≤ c → count c s.channel_pool ≡ 0

pub queued : (c : ℕ) (xs : List ℕ) → has c (c ∷ xs) ≡ true
queued c xs = ground arith

pub dequeued : (c : ℕ) (xs : List ℕ) → remove c (c ∷ xs) ≡ xs
unfolding remove
dequeued c xs = ground arith

module _ ⦃m : Amqp⦄ where
  -- Declarations touch no channel.
  declare_all-keeps : (ds : List Declaration) (s : Connection) → SameChannels s (declare_all ds s).1
  unfolding declare_all
  declare_all-keeps [] s = (refl, refl, refl)
  declare_all-keeps (d ∷ ds) s = elim (Bool-cases (m.declares d)) [
    | inl taken ↦ rw taken (declare_all-keeps ds _)
    | inr refused ↦ rw refused (refl, refl, refl)
  ]

  setup-keeps : (i : ℕ) (s : Connection) → SameChannels s (setup i s).1
  unfolding setup setup_infrastructure
  setup-keeps i s = elim (Bool-cases (eqb i 0)) [
    | inl first ↦ rw first (declare_all-keeps infrastructure s)
    | inr later ↦ rw later (refl, refl, refl)
  ]

  join_pool_lem :
      (c : ℕ) (s s' : Connection) {x : Unit {0}}
      → join_pool c s ≡ (ok x, s')
      → s' ≡ record s { channel_pool = s.channel_pool ++ c ∷ [] }
  unfolding join_pool
  join_pool_lem c s s' h = ground (arith, h)

  -- What a round adds.
  create_pooled_lem :
      (i : ℕ) (s s' : Connection) {x : Unit {0}}
      → create_pooled i s ≡ (ok x, s')
      → (s'.channel_pool ≡ s.channel_pool ++ s.created ∷ [])
        × (s'.channels_in_use ≡ s.channels_in_use)
        × (s'.created ≡ suc s.created)
  unfolding create_pooled
  create_pooled_lem i s s' h =
      let (_, s1, prepared, rest) =
        >>=-eq-ok (ignore_failure (setup i)) (λ _. join_pool s.created) (create_channel s) h in
      let same =
        subst (SameChannels (create_channel s)) (ap (λ r. r.1) prepared)
          (setup-keeps i (create_channel s)) in
      ground (arith, same, join_pool_lem s.created s1 s' rest)

  create_channel_pool-IsNew :
      (n i : ℕ) (s s' : Connection) {x : Unit {0}}
      → create_channel_pool n i s ≡ (ok x, s')
      → IsNew s
      → IsNew s' × (length s'.channel_pool ≡ length s.channel_pool + n)
  unfolding create_channel_pool
  create_channel_pool-IsNew zero i s s' h v =
      let e : s ≡ s' = ap (λ r. r.1) h in
      subst (λ t. IsNew t × (length t.channel_pool ≡ length s.channel_pool + 0)) e (v, omega arith)
  create_channel_pool-IsNew (suc n) i s s' h v =
      let (_, s1, made, rest) = >>=-eq-ok (create_pooled i) _ s h in
      let (pool, in_use, created) = create_pooled_lem i s s1 made in
      let v1 : IsNew s1 = record {
        lent = in_use ∙ v.lent;
        once = λ c.
            rw pool
              (ground (arith, v.once c, v.fresh c, count-append c s.channel_pool (s.created ∷ [])));
        fresh = λ c above.
            rw pool
              (ground (arith, created, v.fresh c, count-append c s.channel_pool (s.created ∷ [])));
      } in
      let (v', longer) = create_channel_pool-IsNew n (i + 1) s1 s' rest v1 in
      (v', omega (arith, longer, ap length pool, length-append s.channel_pool (s.created ∷ [])))

  pub connect-IsShared :
      (pool_size : ℕ) (s : Connection)
      → connect pool_size initial ≡ (ok tt, s)
      → IsShared (unshared s) × (length s.channel_pool ≡ pool_size)
  unfolding connect
  connect-IsShared pool_size s h =
      let start : IsNew initial = record {
        lent = refl;
        once = λ c. omega arith;
        fresh = λ c above. refl;
      } in
      let (v, many) = create_channel_pool-IsNew pool_size 0 initial s h start in
      (
        record {
          lent = λ c. rw v.lent refl;
          pooled = λ c. omega arith;
          once = λ c. omega (arith, v.once c);
          fresh = λ c above. omega (arith, v.fresh c above);
        },
        omega (arith, many),
      )

  -- From the pool that is created at the start, whatever tasks take and give back and in whatever
  -- order: no channel is held by two tasks at once, the channels marked as in use are exactly those
  -- that are held, and every one of them is in the pool.
  pub connect-exclusive :
      (pool_size : ℕ) (s : Connection) (u : System)
      → connect pool_size initial ≡ (ok tt, s)
      → Reach (unshared s) u
      → (c : ℕ)
      → (count c u.held ≤ 1)
        × (count c u.service.channels_in_use ≡ count c u.held)
        × (count c u.held ≤ count c u.service.channel_pool)
  connect-exclusive pool_size s u started r c =
      let v = Reach-IsShared r (connect-IsShared pool_size s started).0 in
      (omega (arith, v.pooled c, v.once c), sym (v.lent c), v.pooled c)

  -- While channels connect, `getChannel` returns, with a channel that no task holds, by steps of the
  -- pool; it creates a channel only if all in the pool are in use.
  pub get_channel-returns :
      (s : System)
      → IsShared s
      → ((c : ℕ) → m.connects c ≡ true)
      → (c : ℕ) × (service : Connection) × (get_channel s.service ≡ (ok c, service))
        × (count c s.held ≡ 0)
        × Reach s (record s { service = service; held = c ∷ s.held })
        × ((d : ℕ)
            → s.service.created < service.created
            → 0 < count d s.service.channel_pool
            → count d s.held ≡ 1)
  unfolding get_channel open_channel find_available
  get_channel-returns s v up = elim (Option-cases (find_available s.service)) [
    | inl full ↦
        let c = s.service.created in
        (
          c,
          admit c (create_channel s.service),
          rw (full, get_channel, up c) refl,
          omega (arith, v.pooled c, v.fresh c),
          next (next here (open_new full refl))
              (connected c (queued c s.waiting) (rw (dequeued c s.waiting) refl)),
          λ d created there. ground (
            arith,
            v.lent d,
            v.pooled d,
            v.once d,
            find-none (λ x. not (has x s.service.channels_in_use)) s.service.channel_pool d full,
          ),
        )
    | inr (c, free) ↦ (
      c,
      lend c s.service,
      rw (free, get_channel) refl,
      ground (
        arith,
        v.lent c,
        find-some (λ x. not (has x s.service.channels_in_use)) s.service.channel_pool c free,
      ),
      next here (take_free c free refl),
      λ d created there. absurd (omega arith),
    )
  ]
