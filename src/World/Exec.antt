-- ===== src/World/Exec.antt =====
-- The steps of a coroutine: bind, raise, calls of Redis, the clock, counters and random values.
use api_gateway_with_abuse_d.Prelude.{ℕ, ◌+◌, ◌*◌, ◌∷◌, if◌then◌else◌}
use api_gateway_with_abuse_d.Platform.{Platform}
use api_gateway_with_abuse_d.World.{Exn, connection_error, Result, ok, err, Metric, World, Exec}

-- The same world at another time.
abbrev pub at_time : {p : Platform} → ℕ → World p → World p
at_time t w = record w { now = t }

module _ {p : Platform} {A : Type 0} where
  abbrev pub pure : A → Exec p A
  pure a w = (ok a, w)

  abbrev pub raise : Exn → Exec p A
  raise e w = (err e, w)

  -- A step that only reads.
  abbrev pub gets : (World p → A) → Exec p A
  gets f w = (ok (f w), w)

module _ {p : Platform} {A B : Type 0} where
  abbrev pub continue : Result A × World p → (A → Exec p B) → Result B × World p
  continue (ok a, w) f = f a w
  continue (err e, w) f = (err e, w)

  infixl 5 ◌>>=◌ ◌>>◌
  abbrev pub ◌>>=◌ : Exec p A → (A → Exec p B) → Exec p B
  ◌>>=◌ m f w = continue (m w) f

  abbrev pub ◌>>◌ : Exec p A → Exec p B → Exec p B
  m >> n = m >>= λ _. n

module _ (p : Platform) where
  abbrev pub modify : (World p → World p) → Exec p (Unit {0})
  modify f w = (ok tt, f w)

  -- A command, or a pipeline, that answers from the store; and one that writes.
  abbrev pub query : {A : Type 0} → (ℕ → p.redis.Db → A) → Exec p A
  query f w = if w.redis_up then (ok (f w.now w.db), w) else (err connection_error, w)

  abbrev pub execute : (ℕ → p.redis.Db → p.redis.Db) → Exec p (Unit {0})
  execute f w =
      if w.redis_up then (ok tt, record w { db = f w.now w.db }) else (err connection_error, w)

  -- asyncio.sleep
  abbrev pub sleep : ℕ → Exec p (Unit {0})
  sleep seconds = modify (λ w. record w { now = w.now + seconds * 1000 })

  -- int(time.time() * 1000)
  abbrev pub now_ms : Exec p ℕ
  now_ms = gets (λ w. w.now)

  abbrev pub inc : Metric → Exec p (Unit {0})
  inc m = modify (λ w. record w { metrics = m ∷ w.metrics })

  -- A random value is the platform's at the next draw.
  abbrev pub draw : Exec p ℕ
  draw w = (ok w.draws, record w { draws = w.draws + 1 })

  -- A script, or a command whose answer comes with its effect.
  abbrev pub call : {A : Type 0} → (ℕ → p.redis.Db → A × p.redis.Db) → Exec p A
  call f w =
      if w.redis_up
      then (ok (f w.now w.db).0, record w { db = (f w.now w.db).1 })
      else (err connection_error, w)
