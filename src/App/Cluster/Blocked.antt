-- ===== src/App/Cluster/Blocked.antt =====
-- A block by an administrator of one process, in the others.
use api_gateway_with_abuse_d.Prelude.{
  ℕ, String, ◌≡◌, true, false, none, Bool, List, [], ◌∷◌, All, eqb, Bool-cases, inl, inr, arith,
  sym, subst, some,
}
use api_gateway_with_abuse_d.Platform.{Platform}
use api_gateway_with_abuse_d.Config.{Settings}
use api_gateway_with_abuse_d.World.{World, ok}
use api_gateway_with_abuse_d.World.Http.{Request, Response}
use api_gateway_with_abuse_d.Services.BloomFilter.{app_state, might_contain_ip}
use api_gateway_with_abuse_d.Routers.Admin
use api_gateway_with_abuse_d.Middleware.Chain.BadIp.{IsRefused}
use api_gateway_with_abuse_d.Workers.BloomSync.{startup}
use api_gateway_with_abuse_d.App.{Endpoint, handle, serve}
use api_gateway_with_abuse_d.App.Lasting.{flagged, block_ip-flagged, handle-Good, flagged-IsRefused}
use api_gateway_with_abuse_d.App.Restart.{
  StoresIp, block_ip-StoresIp, startup-flagged, handle-StoresIp,
}
use api_gateway_with_abuse_d.App.Cluster.{
  Cluster, Move, happening, restart, view, leave, fresh, move, run_moves,
}
use api_gateway_with_abuse_d.App.Cluster.Shared.{run_moves-kept, run_moves-IsWellTyped}

eqb_refl : (n : ℕ) → eqb n n ≡ true
eqb_refl n = ground arith

-- A move that does not start a process again.
abbrev pub Spares : ℕ → Move → Type 0
Spares j (happening i e) = Unit {0}
Spares j (restart i answers) = eqb i j ≡ false

-- The process in a cluster has the address in the filter of its application.
abbrev Flags : (p : Platform) → String → ℕ → Cluster p → Type 0
Flags p ip j c = might_contain_ip p app_state ip (c.local j) ≡ true

leave-Flags :
    (p : Platform) (ip : String) (i j : ℕ) (w : World p) (c : Cluster p)
    → ((i ≡ j) → might_contain_ip p app_state ip w ≡ true)
    → Flags p ip j c
    → Flags p ip j (leave p i w c)
leave-Flags p ip i j w c own h = elim (Bool-cases (eqb i j)) [
  | inl e ↦ rw e (own (ground arith))
  | inr e ↦ rw e h
]

move-Flags :
    (p : Platform) (settings : Settings) (ip : String) (j : ℕ) (m : Move) (c : Cluster p)
    → Spares j m
    → Flags p ip j c
    → Flags p ip j (move p settings m c)
unfolding move
move-Flags p settings ip j (happening i e) c spared h =
    leave-Flags p ip i j (handle p settings e (view p i c)) c
      (λ same.
        handle-Good (flagged p ip) settings e (view p i c) (λ up v good. good) tt
          (subst (λ k. Flags p ip k c) (sym same) h))
      h
move-Flags p settings ip j (restart i answers) c spared h = rw spared h

run_moves-Flags :
    (p : Platform) (settings : Settings) (ip : String) (j : ℕ) (moves : List Move) (c : Cluster p)
    → All (Spares j) moves
    → Flags p ip j c
    → Flags p ip j (run_moves p settings moves c)
unfolding run_moves
run_moves-Flags p settings ip j [] c spared h = h
run_moves-Flags p settings ip j (m ∷ moves) c spared h =
    run_moves-Flags p settings ip j moves (move p settings m c) spared.1
      (move-Flags p settings ip j m c spared.0 h)

-- A cluster in which a process has carried an administrator's block of an address out.
abbrev pub blocked_at : (p : Platform) → ℕ → String → Request → Cluster p → Cluster p
blocked_at p i ip by c = leave p i (Admin.block_ip p ip by (view p i c)).1 c

-- When an administrator's block of an address has returned at a process, then whatever happens to the
-- processes that share its Redis, as long as it is not started again: every request of the address to
-- any of its endpoints is answered 401 or 403, and leaves the store and the table of users as they
-- are.
pub block_ip-lasts :
    (p : Platform) (settings : Settings) (ip : String) (by later : Request) (response : Response)
    (moves : List Move) (i : ℕ) (endpoint : Endpoint) (c : Cluster p)
    → (Admin.block_ip p ip by (view p i c)).0 ≡ ok response
    → All (Spares i) moves
    → later.host ≡ some ip
    → IsRefused p
        (serve p settings endpoint later
          (view p i (run_moves p settings moves (blocked_at p i ip by c))))
        (view p i (run_moves p settings moves (blocked_at p i ip by c)))
block_ip-lasts p settings ip by later response moves i endpoint c blocked spared from =
    flagged-IsRefused p settings ip later endpoint
      (view p i (run_moves p settings moves (blocked_at p i ip by c))) from
      (run_moves-Flags p settings ip i moves (blocked_at p i ip by c) spared
        (rw (eqb_refl i) (block_ip-flagged p ip by response (view p i c) blocked)))

-- Several processes share one Redis that is empty at first, and at one of them an administrator's
-- block of an address has returned. Whatever else has happened, when a process is started after that,
-- the blocking one or another, and its startup has returned, then until it is started again every
-- request of the address to any of its endpoints is answered 401 or 403, and leaves the store and the
-- table of users as they are.
pub block_ip-restart :
    (p : Platform) (settings : Settings) (ip : String) (by later : Request) (response : Response)
    (before during after : List Move) (i j : ℕ) (answers : ℕ → Bool) (n : ℕ) (endpoint : Endpoint)
    (c : Cluster p)
    → ((k : String) → p.redis.cell k c.db ≡ none)
    → (Admin.block_ip p ip by (view p i (run_moves p settings before c))).0 ≡ ok response
    → let d = run_moves p settings during (blocked_at p i ip by (run_moves p settings before c)) in
      let v = view p j (run_moves p settings after (move p settings (restart j answers) d)) in
      (startup p answers (fresh p (view p j d))).0 ≡ ok n
      → All (Spares j) after
      → later.host ≡ some ip
      → IsRefused p (serve p settings endpoint later v) v
unfolding move
block_ip-restart p settings ip by later response before during after i j answers n endpoint c empty
      blocked started spared from =
    let b = run_moves p settings before c in
    let d = run_moves p settings during (blocked_at p i ip by b) in
    let e = move p settings (restart j answers) d in
    let stored =
      run_moves-kept p (StoresIp p ip) settings during (blocked_at p i ip by b)
        (λ e w h. handle-StoresIp p ip settings e w h)
        (block_ip-StoresIp p ip by response (view p i b)
          (run_moves-IsWellTyped p settings before c empty) blocked) in
    flagged-IsRefused p settings ip later endpoint (view p j (run_moves p settings after e)) from (
      run_moves-Flags p settings ip j after e spared
        (rw (eqb_refl j) (startup-flagged p answers ip n (fresh p (view p j d)) stored started)))
