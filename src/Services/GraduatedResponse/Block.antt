-- ===== src/Services/GraduatedResponse/Block.antt =====
-- app/services/graduated_response.py: the life of a soft block.
use api_gateway_with_abuse_d.Prelude.{
  ℕ, ◌+◌, ◌*◌, String, ◌≡◌, refl, true, Option, arith, ltb, ◌==◌, eq_refl, append-==, if◌then◌else◌,
  Bool-cases, inl, inr,
}
use api_gateway_with_abuse_d.Redis.{exists}
use api_gateway_with_abuse_d.Redis.Keys.{blocked_ip}
use api_gateway_with_abuse_d.Platform.{Platform, Deviation}
use api_gateway_with_abuse_d.Config.{Fraction}
use api_gateway_with_abuse_d.World.{World, ok}
use api_gateway_with_abuse_d.World.Exec.{at_time}
use api_gateway_with_abuse_d.Services.GraduatedResponse.{
  soft_block, allowed, get_client_state, apply_soft_block, remove_soft_block, compute_abuse_score,
  soft_block_ttl, is_soft_block, score_signals,
}

-- While Redis is up, an address that is blocked for `ttl` seconds is in the state SOFT_BLOCK until
-- these have passed, and ALLOWED from then on; any other address is in the state that it would be
-- in at that time without the block.
pub soft_block-lasts :
    (p : Platform) (ip other : String) (ttl t : ℕ) (w : World p)
    → w.redis_up ≡ true
    → (get_client_state p other (at_time t (apply_soft_block p ip ttl w).1)).0 ≡ (
        if ip == other
        then ok (if ltb t (w.now + ttl * 1000) then soft_block else allowed)
        else (get_client_state p other (at_time t w)).0)
unfolding get_client_state apply_soft_block
soft_block-lasts p ip other ttl t w up =
    rw (up, p.redis.cell-set, append-==)
      (elim (Bool-cases (ip == other)) [
        | inl same ↦ rw same (ground arith)
        | inr differ ↦ rw differ refl
      ])

-- While Redis is up, lifting a block makes the address ALLOWED at every later time, as long as
-- nothing else is written; any other address is in the state that it would be in without that.
pub remove_soft_block-lifts :
    (p : Platform) (ip other : String) (t : ℕ) (w : World p)
    → w.redis_up ≡ true
    → (get_client_state p other (at_time t (remove_soft_block p ip w).1)).0
      ≡ (if ip == other then ok allowed else (get_client_state p other (at_time t w)).0)
unfolding get_client_state remove_soft_block
remove_soft_block-lifts p ip other t w up =
    rw (up, p.redis.cell-delete, append-==)
      (elim (Bool-cases (ip == other)) [ inl same ↦ rw same refl | inr differ ↦ rw differ refl ])

-- Whenever the score of an address is SOFT_BLOCK, the address is blocked in the store at that
-- moment. Later it is blocked as long as the block that was there lasts; if none was there, for
-- exactly five minutes.
pub compute_abuse_score-blocks :
    (p : Platform) (ip : String) (ip_fails user_fails : ℕ) (entropy : Option Deviation)
    (ip_threshold user_threshold : ℕ) (threshold : Fraction) (reason : String) (t : ℕ) (w : World p)
    → (compute_abuse_score p ip ip_fails user_fails entropy ip_threshold user_threshold threshold
        w).0
      ≡ ok (soft_block, reason)
    → ((get_client_state p ip
          (compute_abuse_score p ip ip_fails user_fails entropy ip_threshold user_threshold
            threshold w).1).0
        ≡ ok soft_block)
      × ((get_client_state p ip (
            at_time t
              (compute_abuse_score p ip ip_fails user_fails entropy ip_threshold user_threshold
                threshold w).1)).0
          ≡ (if exists p.redis w.now (blocked_ip ip) w.db
              then (get_client_state p ip (at_time t w)).0
              else ok (if ltb t (w.now + soft_block_ttl * 1000) then soft_block else allowed)))
unfolding compute_abuse_score
compute_abuse_score-blocks p ip ip_fails user_fails entropy ip_threshold user_threshold threshold
      reason t w h =
    elim (Bool-cases w.redis_up) [
      | inr down ↦ ground arith
      | inl up ↦ elim (Bool-cases (exists p.redis w.now (blocked_ip ip) w.db)) [
        | inl there ↦ (ground arith, simp (up, there))
        | inr free ↦
            elim (Bool-cases (
              is_soft_block
                (score_signals p ip_fails user_fails entropy ip_threshold user_threshold
                  threshold).0)) [
                    | inl soft ↦ (
                      simp (up, free, soft, p.redis.cell-set, eq_refl) (ground arith),
                      simp (up, free, soft, p.redis.cell-set, eq_refl) (ground arith),
                    )
                    | inr other ↦ (ground arith, ground arith)
                  ]
      ]
    ]
