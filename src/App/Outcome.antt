-- ===== src/App/Outcome.antt =====
-- What a coroutine makes of a world: contracts of the gateway's steps, and the rules by which they
-- add up along a do block.
use api_gateway_with_abuse_d.Prelude.{
  ℕ, ◌+◌, String, ◌≡◌, refl, ◌⊎◌, Bool, true, false, none, some, List, [], ◌∷◌, All, Bool-cases,
  inl, inr, if◌then◌else◌, int,
}
use api_gateway_with_abuse_d.Redis.{get}
use api_gateway_with_abuse_d.Redis.Keys.{failed_auth, rate_limit}
use api_gateway_with_abuse_d.Platform.{Platform, User, DatabaseError}
use api_gateway_with_abuse_d.Dependencies.{role_user}
use api_gateway_with_abuse_d.World.{
  World, BloomService, Gauges, Pool, Exec, Exn, http_error, index_error, password_error,
  database_error, connection_error, value_error, Metric, Result, ok, err,
}
use api_gateway_with_abuse_d.World.Exec.{continue, pure, query, execute, call}
use api_gateway_with_abuse_d.Services.RateLimiter.{sliding_window_script}
use api_gateway_with_abuse_d.App.Commands.{Command, issue, issue_all, in_script}

-- A user as `register` makes it: without a role of its own, and with a hash for a password.
abbrev pub IsRegistered : Platform → User → Type 0
IsRegistered p u =
    (u.role ≡ role_user)
    × (salt : ℕ) × (password : String) × (p.bcrypt.hashpw salt password ≡ some u.hashed_password)

-- A property of worlds that each single step of the gateway keeps, and the exceptions that can be
-- raised where it holds.
pub record Contract (p : Platform) : Type 1 where
  pub Good : World p → Type 0
  pub Raises : Exn → Type 0
  -- The limits with which the rate limiter is called.
  pub Allows : ℕ → Type 0
  pub later : (ms : ℕ) (w : World p) → Good w → Good (record w { now = w.now + ms })
  pub counted : (m : Metric) (w : World p) → Good w → Good (record w { metrics = m ∷ w.metrics })
  pub measured : (g : Gauges) (w : World p) → Good w → Good (record w { gauges = g })
  pub pooled : (pool : Pool) (w : World p) → Good w → Good (record w { pool = pool })
  pub drawn : (w : World p) → Good w → Good (record w { draws = w.draws + 1 })
  pub joined :
      (u : User) (w : World p)
      → IsRegistered p u
      → p.users.select u.username w.users ≡ none
      → p.users.insert_error w.now u w.users ≡ none
      → Good w
      → Good (record w { users = p.users.insert u w.users })
  pub ip_added :
      (ip : String) (f : p.bloom.Filter) (w : World p)
      → p.bloom.add ip w.bloom.ip_filter ≡ some f
      → Good w
      → Good (record w { bloom = record w.bloom { ip_filter = f } })
  pub agent_added :
      (user_agent : String) (f : p.bloom.Filter) (w : World p)
      → p.bloom.add user_agent w.bloom.agent_filter ≡ some f
      → Good w
      → Good (record w { bloom = record w.bloom { agent_filter = f } })
  pub synced : (b : BloomService p) (w : World p) → Good w → Good (record w { worker_bloom = b })
  pub issued :
      (c : Command) (w : World p)
      → in_script c ≡ false
      → Good w
      → Good (record w { db = issue p c w.now w.db })
  pub checked :
      (client_id request_id : String) (limit window : ℕ) (w : World p)
      → Allows limit
      → Good w
      → Good (record w {
        db =
            (sliding_window_script p.redis
              (rate_limit client_id)
              w.now
              window
              limit
              request_id
              w.now
              w.db).1;
      })
  pub full : Raises index_error
  pub long : Raises password_error
  pub lost : (e : DatabaseError) → Raises (database_error e)
  pub down : (w : World p) → Good w → w.redis_up ≡ false → Raises connection_error
  pub garbled :
      (who s : String) (w : World p)
      → Good w
      → get p.redis w.now (failed_auth who) w.db ≡ some s
      → int s ≡ none
      → Raises value_error

module _ {p : Platform} (c : Contract p) where
  -- A coroutine returned a value of which `Q` holds, or raised what the contract lets it raise, and
  -- the world is good.
  pub data Outcome {A : Type 0} (Q : A → Type 0) : Result A × World p → Type 0 where
    returned : {a : A} {w : World p} → Q a → c.Good w → Outcome Q (ok a, w)
    raised : {e : Exn} {w : World p} → c.Raises e → c.Good w → Outcome Q (err e, w)

  -- A return or a raise in good order, whatever the value is.
  abbrev pub Settles : {A : Type 0} → Result A × World p → Type 0
  Settles = Outcome (λ _. Unit {0})

  abbrev pub Runs : {A : Type 0} → Exec p A → Type 0
  Runs m = (w : World p) → c.Good w → Settles (m w)

  pub continue-Outcome :
      {A B : Type 0} {Q : A → Type 0} {R : B → Type 0} {r : Result A × World p} (f : A → Exec p B)
      → Outcome Q r
      → ((a : A) (v : World p) → Q a → c.Good v → Outcome R (f a v))
      → Outcome R (continue r f)
  continue-Outcome f (returned {a} {w} q good) next = next a w q good
  continue-Outcome f (raised e good) next = raised e good

  pub continue-Settles :
      {A B : Type 0} {r : Result A × World p} (f : A → Exec p B)
      → Settles r
      → ((a : A) (v : World p) → c.Good v → Settles (f a v))
      → Settles (continue r f)
  continue-Settles f settles next = continue-Outcome f settles (λ a v _ good. next a v good)

  pub pure-Settles : {A : Type 0} (a : A) (w : World p) → c.Good w → Settles (ok a, w)
  pure-Settles a w good = returned tt good

  -- The contract lets a route raise an HTTPException.
  abbrev pub Refuses : Type 0
  Refuses =
      (status : ℕ) (detail : String) (headers : List (String × String))
      → c.Raises (http_error status detail headers)

  pub refuse-Settles :
      {A : Type 0} (refuses : Refuses) (status : ℕ) (detail : String)
      (headers : List (String × String)) (w : World p)
      → c.Good w
      → Settles {A = A} (err (http_error status detail headers), w)
  refuse-Settles refuses status detail headers w good = raised (refuses status detail headers) good

  -- A call of Redis goes through, or raises where the connection is down.
  pub connected :
      {A : Type 0} {Q : A → Type 0} (w : World p) (x : Result A × World p)
      → c.Good w
      → Outcome Q x
      → Outcome Q (if w.redis_up then x else (err connection_error, w))
  connected {Q = Q} w x good done = go w.redis_up refl
    where
      go : (b : Bool) → w.redis_up ≡ b → Outcome Q (if b then x else (err connection_error, w))
      go true up = done
      go false off = raised (c.down w good off) good

  -- A read goes on with what the store holds, in the same world.
  pub query-continue :
      {A B : Type 0} (f : ℕ → p.redis.Db → A) (g : A → Exec p B) (w : World p)
      → c.Good w
      → Settles (g (f w.now w.db) w)
      → Settles (continue (query p f w) g)
  query-continue f g w good next = elim (Bool-cases w.redis_up) [
    | inl up ↦ simp up next
    | inr off ↦ simp off (raised (c.down w good off) good)
  ]

  -- A method that reads and computes.
  pub read-Settles :
      {A B : Type 0} (f : ℕ → p.redis.Db → A) (g : A → B) (w : World p)
      → c.Good w
      → Settles (continue (query p f w) (λ a. pure (g a)))
  read-Settles f g w good = query-continue f (λ a. pure (g a)) w good (returned tt good)

  pub issue_all-Good :
      (cs : List Command) (w : World p)
      → All (λ x. in_script x ≡ false) cs
      → c.Good w
      → c.Good (record w { db = issue_all p cs w.now w.db })
  issue_all-Good [] w single good = good
  issue_all-Good (x ∷ xs) w (single, rest) good =
      issue_all-Good xs (record w { db = issue p x w.now w.db }) rest (c.issued x w single good)

  -- A pipeline of commands.
  pub execute-Settles :
      (cs : List Command) (w : World p)
      → All (λ x. in_script x ≡ false) cs
      → c.Good w
      → Settles (execute p (issue_all p cs) w)
  execute-Settles cs w single good =
      connected w (ok tt, record w { db = issue_all p cs w.now w.db }) good
        (returned tt (issue_all-Good cs w single good))

  pub call-Settles :
      {A : Type 0} (f : ℕ → p.redis.Db → A × p.redis.Db) (w : World p)
      → c.Good w
      → c.Good (record w { db = (f w.now w.db).1 })
      → Settles (call p f w)
  call-Settles f w good good' =
      connected w (ok (f w.now w.db).0, record w { db = (f w.now w.db).1 }) good (returned tt good')

  pub if-Settles :
      {A : Type 0} (b : Bool) (m n : Exec p A) (w : World p)
      → Settles (m w)
      → Settles (n w)
      → Settles ((if b then m else n) w)
  if-Settles true m n w yes_case no_case = yes_case
  if-Settles false m n w yes_case no_case = no_case

abbrev pub IsRefusal : Exn → Type 0
IsRefusal (http_error status detail headers) = Unit
IsRefusal _ = ⊥

-- The contract of a route, whose HTTPExceptions the application answers.
abbrev pub routed : {p : Platform} → Contract p → Contract p
routed c = record c {
  Raises = λ e. IsRefusal e ⊎ c.Raises e;
  full = inr c.full;
  long = inr c.long;
  lost = λ e. inr (c.lost e);
  down = λ w good off. inr (c.down w good off);
  garbled = λ who s w good held none. inr (c.garbled who s w good held none);
}

pub routed-Refuses : {p : Platform} (c : Contract p) → Refuses (routed c)
routed-Refuses c status detail headers = inl tt
