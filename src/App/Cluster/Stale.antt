-- ===== src/App/Cluster/Stale.antt =====
-- A block by an administrator of one process, in another one that has been running all the time.
use api_gateway_with_abuse_d.Prelude.{
  ℕ, String, ◌≡◌, refl, ◌∙◌, ap, false, List, [], ◌∷◌, All, eqb, Bool-cases, inl, inr, arith,
}
use api_gateway_with_abuse_d.Platform.{Platform}
use api_gateway_with_abuse_d.Config.{Settings}
use api_gateway_with_abuse_d.World.{World}
use api_gateway_with_abuse_d.World.Http.{Request}
use api_gateway_with_abuse_d.Workers.BloomSync.Rounds.{sync_round-frame}
use api_gateway_with_abuse_d.App.{
  Event, handle, arrival, sync_due, elapse, redis_switch, pool_change,
}
use api_gateway_with_abuse_d.App.Cluster.{Cluster, Move, happening, restart, view, move, run_moves}
use api_gateway_with_abuse_d.App.Cluster.Blocked.{blocked_at}

-- An event that is no request.
abbrev pub IsQuiet : Event → Type 0
IsQuiet (arrival endpoint request) = ⊥
IsQuiet _ = Unit {0}

-- A move at another process, or one that is no request and no start.
abbrev pub Awaits : ℕ → Move → Type 0
Awaits j (happening i e) = (i ≡ j) → IsQuiet e
Awaits j (restart i answers) = eqb i j ≡ false

handle-bloom :
    (p : Platform) (settings : Settings) (e : Event) (w : World p)
    → IsQuiet e
    → (handle p settings e w).bloom ≡ w.bloom
unfolding handle
handle-bloom p settings sync_due w q = ap (λ v. v.bloom) (sync_round-frame p w)
handle-bloom p settings (elapse ms) w q = refl
handle-bloom p settings (redis_switch up) w q = refl
handle-bloom p settings (pool_change pool) w q = refl
handle-bloom p settings (arrival endpoint request) w q = absurd q

move-bloom :
    (p : Platform) (settings : Settings) (j : ℕ) (m : Move) (c : Cluster p)
    → Awaits j m
    → ((move p settings m c).local j).bloom ≡ (c.local j).bloom
unfolding move
move-bloom p settings j (happening i e) c awaits = elim (Bool-cases (eqb i j)) [
  | inr other ↦ rw other refl
  | inl own ↦
      let same : i ≡ j = ground arith in
      rw own
        (handle-bloom p settings e (view p i c) (awaits same) ∙ ap (λ k. (c.local k).bloom) same)
]
move-bloom p settings j (restart i answers) c awaits = rw awaits refl

run_moves-bloom :
    (p : Platform) (settings : Settings) (j : ℕ) (moves : List Move) (c : Cluster p)
    → All (Awaits j) moves
    → ((run_moves p settings moves c).local j).bloom ≡ (c.local j).bloom
unfolding run_moves
run_moves-bloom p settings j [] c awaits = refl
run_moves-bloom p settings j (m ∷ moves) c awaits =
    run_moves-bloom p settings j moves (move p settings m c) awaits.1
    ∙ move-bloom p settings j m c awaits.0

-- An administrator's request to block an address, carried out by one process, never reaches the
-- filters of the application of another process that is not started again and gets no request:
-- whatever happens to the others, and however many rounds of its own worker pass, they are what they
-- were before.
pub block_ip-unseen :
    (p : Platform) (settings : Settings) (ip : String) (by : Request) (moves : List Move) (i j : ℕ)
    (c : Cluster p)
    → eqb i j ≡ false
    → All (Awaits j) moves
    → (view p j (run_moves p settings moves (blocked_at p i ip by c))).bloom ≡ (view p j c).bloom
block_ip-unseen p settings ip by moves i j c other awaits =
    run_moves-bloom p settings j moves (blocked_at p i ip by c) awaits ∙ rw other refl
