-- ===== src/App/Restart.antt =====
-- An address that an administrator has blocked, in the Redis set that outlives the process, and a
-- start of a process, which loads the set.
use api_gateway_with_abuse_d.Prelude.{
  ℕ, String, ◌≡◌, refl, sym, ap, ◌∙◌, inl, inr, Bool, true, Option, none, some, List, [], ◌∷◌, ◌==◌,
  eq_iff, eq_refl, Bool-cases, Option-cases, arith,
}
use api_gateway_with_abuse_d.Redis.{
  Cell, Value, members, live, sadd_cell, contains, insert_member, smembers, members_of,
}
use api_gateway_with_abuse_d.Platform.{Platform}
use api_gateway_with_abuse_d.Config.{Settings}
use api_gateway_with_abuse_d.World.{World, ok}
use api_gateway_with_abuse_d.World.Http.{Request, Response}
use api_gateway_with_abuse_d.World.Inversion.{err≢ok, continue-returned}
use api_gateway_with_abuse_d.Core.RedisClient.{create_redis_client}
use api_gateway_with_abuse_d.Core.RedisClient.Connect.{create_redis_client-attempts}
use api_gateway_with_abuse_d.Services.BloomFilter.{
  app_state, add_ip_to_redis, might_contain_ip, with_service, new_service,
}
use api_gateway_with_abuse_d.Services.BloomFilter.Complete.{sync_from_redis-has_ip}
use api_gateway_with_abuse_d.Routers.Admin
use api_gateway_with_abuse_d.Routers.Admin.Access.{admitted}
use api_gateway_with_abuse_d.Workers.BloomSync.{startup}
use api_gateway_with_abuse_d.App.{Event, handle}
use api_gateway_with_abuse_d.App.Commands.{
  Command, store_ip, issue, key_of, effect, cell-issue, initial, initial_of, initial-key_of,
}
use api_gateway_with_abuse_d.App.Lasting.{over_store, handle-Good}
use api_gateway_with_abuse_d.App.Typed.{set, OfKind, IsTyped, IsWellTyped}

-- A set without an expiry that has the address.
abbrev pub Stores : String → Option Cell → Type 0
Stores ip none = ⊥
Stores ip (some c) =
    (ms : List String) × (c ≡ record { value = members ms; deadline = none })
    × (contains ip ms ≡ true)

abbrev pub StoresIp : (p : Platform) → String → p.redis.Db → Type 0
StoresIp p ip db = Stores ip (p.redis.cell "known_bad_ips" db)

contains-insert_member_other :
    (x m : String) (ms : List String)
    → contains m ms ≡ true
    → contains m (insert_member x ms) ≡ true
unfolding insert_member contains
contains-insert_member_other x m ms h = ground arith

contains-insert_member : (m : String) (ms : List String) → contains m (insert_member m ms) ≡ true
unfolding insert_member contains
contains-insert_member m ms = ground (arith, eq_refl m)

sadd_cell-Stores :
    (t : ℕ) (x ip : String) (cell : Option Cell)
    → Stores ip cell
    → Stores ip (sadd_cell x (live t cell))
sadd_cell-Stores t x ip none h = absurd h
sadd_cell-Stores t x ip (some c) (ms, e, has) =
    rw e (insert_member x ms, refl, contains-insert_member_other x ip ms has)

effect-Stores :
    (p : Platform) (c : Command) (t : ℕ) (ip : String) (cell : Option Cell)
    → initial_of c ≡ b'k'
    → Stores ip cell
    → Stores ip (effect p c t cell)
effect-Stores p (store_ip x) t ip cell k h = sadd_cell-Stores t x ip cell h
effect-Stores p _ t ip cell k h = absurd (omega arith)

issue-StoresIp :
    (p : Platform) (ip : String) (c : Command) (t : ℕ) (db : p.redis.Db)
    → StoresIp p ip db
    → StoresIp p ip (issue p c t db)
unfolding initial
issue-StoresIp p ip c t db h = elim (Bool-cases (key_of c == "known_bad_ips")) [
  | inr other ↦ rw (cell-issue p c t db "known_bad_ips", other) h
  | inl own ↦
      let same = (eq_iff (key_of c) "known_bad_ips").0 own in
      rw (cell-issue p c t db "known_bad_ips", own)
        (effect-Stores p c t ip (p.redis.cell (key_of c) db)
          (sym (initial-key_of c) ∙ ap initial same) (rw same h))
]

sadd_value-new :
    (t : ℕ) (ip : String) (v : Value) (d : Option ℕ)
    → IsTyped set v d
    → Stores ip (sadd_cell ip (live t (some (record { value = v; deadline = d }))))
sadd_value-new t ip (members ms) d h =
    rw h (insert_member ip ms, refl, contains-insert_member ip ms)
sadd_value-new t ip _ d h = absurd h

sadd_cell-new :
    (t : ℕ) (ip : String) (cell : Option Cell)
    → OfKind set cell
    → Stores ip (sadd_cell ip (live t cell))
unfolding contains
sadd_cell-new t ip none h = (ip ∷ [], refl, rw eq_refl refl)
sadd_cell-new t ip (some c) h = sadd_value-new t ip c.value c.deadline h

pub block_ip-StoresIp :
    (p : Platform) (ip : String) (by : Request) (response : Response) (w : World p)
    → IsWellTyped p w.db
    → (Admin.block_ip p ip by w).0 ≡ ok response
    → StoresIp p ip (Admin.block_ip p ip by w).1.db
unfolding Admin.block_ip add_ip_to_redis IsWellTyped initial
block_ip-StoresIp p ip by response w typed h =
    let (who, step) = admitted p by _ response w h in
    elim (Bool-cases w.redis_up) [
      | inl up ↦ elim (Option-cases (p.bloom.add ip w.bloom.ip_filter)) [
        | inl full ↦ absurd (err≢ok (rw (up, full) at (rw step at h)))
        | inr (f, room) ↦ rw step (
            rw (up, room, p.redis.cell-sadd)
              (sadd_cell-new w.now ip (p.redis.cell "known_bad_ips" w.db) (typed "known_bad_ips")))
      ]
      | inr down ↦ absurd (err≢ok (rw down at (rw step at h)))
    ]

create_redis_client-db :
    (p : Platform) (answers : ℕ → Bool) (w : World p)
    → (create_redis_client p answers w).1.db ≡ w.db
create_redis_client-db p answers w = ground (arith, create_redis_client-attempts p answers w)

contains-members_of :
    (ip : String) (t : ℕ) (cell : Option Cell)
    → Stores ip cell
    → contains ip (members_of (live t cell)) ≡ true
contains-members_of ip t none h = absurd h
contains-members_of ip t (some c) (ms, e, has) = rw e has

contains-smembers :
    (p : Platform) (ip : String) (t : ℕ) (db : p.redis.Db)
    → StoresIp p ip db
    → contains ip (smembers p.redis t "known_bad_ips" db) ≡ true
contains-smembers p ip t db h = contains-members_of ip t (p.redis.cell "known_bad_ips" db) h

pub startup-flagged :
    (p : Platform) (answers : ℕ → Bool) (ip : String) (n : ℕ) (w : World p)
    → StoresIp p ip w.db
    → (startup p answers w).0 ≡ ok n
    → might_contain_ip p app_state ip (startup p answers w).1 ≡ true
unfolding startup
startup-flagged p answers ip n w h done =
    let r = create_redis_client p answers w in
    let (a, _, step) = continue-returned r _ done in
    let v = with_service p app_state (new_service p) r.1 in
    rw step (
      sync_from_redis-has_ip p app_state v n ip (rw step at done)
        (contains-smembers p ip v.now v.db (rw (create_redis_client-db p answers w) h)))

pub handle-StoresIp :
    (p : Platform) (ip : String) (settings : Settings) (e : Event) (w : World p)
    → StoresIp p ip w.db
    → StoresIp p ip (handle p settings e w).db
handle-StoresIp p ip settings e w h =
    handle-Good (over_store p (StoresIp p ip) (issue-StoresIp p ip)) settings e w
      (λ up v good. good) tt h
