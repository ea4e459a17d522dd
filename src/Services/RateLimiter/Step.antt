-- ===== src/Services/RateLimiter/Step.antt =====
-- One call of the script against an exact log of the admitted times, newest first.
use api_gateway_with_abuse_d.Prelude.{
  ℕ, ◌+◌, ◌*◌, ◌≤◌, ◌<◌, String, append, ◌≡◌, refl, sym, ap, ◌∙◌, ◌≢◌, Bool, true, List, [], ◌∷◌,
  arith, ltb, if◌then◌else◌, length, count, keep, All, str, str_injective, Bool-cases, inl, inr,
  length-keep, count-keep, count_ext, count-eq-zero, All-keep, All-map,
}
use api_gateway_with_abuse_d.Prelude.Int.{sub_ℕ}
use text.Mathlib.TextLemmas.{append_cancel_right}
use api_gateway_with_abuse_d.Redis.{insert_sorted, Redis, zrange, Scored, outside, insert_scored}
use api_gateway_with_abuse_d.Redis.SortedSet.{
  IsSortedSet, count-insert_sorted, All-insert_sorted, keep-is_other,
}
use api_gateway_with_abuse_d.Redis.Keys.{rate_limit}
use api_gateway_with_abuse_d.Services.RateLimiter.Effects.{
  pruned, added, zrange-pruned, pruned-IsSortedSet, zrange-added_typed, added_key-IsSortedSet,
}
use api_gateway_with_abuse_d.Services.RateLimiter.{request_id_of}

-- Whether a request at `s` is in the window of `window` seconds that ends at `t`.
abbrev pub in_window : ℕ → ℕ → ℕ → Bool
in_window window t s = ltb t (s + window * 1000)

-- The store agrees with the log `admitted` from the time `last` on.
pub record Agrees (redis : Redis) (client_id : String) (window last : ℕ) (admitted : List ℕ)
    (db : redis.Db) : Type 0 where
  pub typed : IsSortedSet (redis.cell (rate_limit client_id) db)
  pub bounded : All (λ s. s ≤ last) admitted
  pub counts :
      (t x : ℕ)
      → last ≤ t
      → t ≤ x
      → count (λ e. in_window window x e.score) (zrange redis t (rate_limit client_id) db)
        ≡ count (in_window window x) admitted
  pub owned :
      (t : ℕ)
      → last ≤ t
      → All
          (λ e. (e.member ≡ request_id_of e.score client_id) × (e.score ≤ last))
          (zrange redis t (rate_limit client_id) db)

in_window-outside :
    (window t x s : ℕ)
    → t ≤ x
    → in_window window x s ≡ true
    → outside 0 (sub_ℕ t (window * 1000)) (record { member = ""; score = s }) ≡ true
in_window-outside window t x s h e = ground arith

outside-in_window :
    (window t s : ℕ) (m : String)
    → outside 0 (sub_ℕ t (window * 1000)) (record { member = m; score = s }) ≡ in_window window t s
outside-in_window window t s m = ground arith

count-window-outside :
    (window t x : ℕ) (xs : List Scored)
    → t ≤ x
    → count (λ e. in_window window x e.score) (keep (outside 0 (sub_ℕ t (window * 1000))) xs)
      ≡ count (λ e. in_window window x e.score) xs
count-window-outside window t x xs le =
    count-keep _ _ xs (λ e h. in_window-outside window t x e.score le h)

count_of_expired :
    (window last x : ℕ) (admitted : List ℕ)
    → last + window * 1000 ≤ x
    → All (λ s. s ≤ last) admitted
    → count (in_window window x) admitted ≡ 0
count_of_expired window last x admitted h all =
    count-eq-zero (in_window window x) admitted (λ s le. ground arith) all

request_id_of_injective :
    (s t : ℕ) (client_id : String) → request_id_of s client_id ≡ request_id_of t client_id → s ≡ t
request_id_of_injective s t client_id e =
    str_injective s t (append_cancel_right (str s) (str t) (append "-" client_id) e)

module _ (redis : Redis) (client_id : String) (window : ℕ) where
  module _ {last : ℕ} {admitted : List ℕ} {db : redis.Db}
      (agrees : Agrees redis client_id window last admitted db) where
    -- The script counts the log's entries of the window that ends now.
    pub length-pruned :
        (t : ℕ)
        → last ≤ t
        → length (zrange redis t (rate_limit client_id) (pruned redis client_id window t db))
          ≡ count (in_window window t) admitted
    length-pruned t le =
        rw (zrange-pruned redis client_id window db agrees.typed t t (omega arith)) (
          length-keep _ (zrange redis t (rate_limit client_id) db)
          ∙ count_ext _ _ (zrange redis t (rate_limit client_id) db)
              (λ e. outside-in_window window t e.score e.member)
          ∙ agrees.counts t t le (omega arith))

    -- A refused call leaves a store that agrees with the same log.
    pub pruned-Agrees :
        (t : ℕ)
        → last ≤ t
        → Agrees redis client_id window t admitted (pruned redis client_id window t db)
    pruned-Agrees t le = record {
      typed = pruned-IsSortedSet redis client_id window db agrees.typed t;
      bounded = All-map _ _ admitted (λ s h. omega arith) agrees.bounded;
      counts = λ t' x h k.
          rw (zrange-pruned redis client_id window db agrees.typed t t' h)
            (count-window-outside window t x _ (omega arith) ∙ agrees.counts t' x (omega arith) k);
      owned = λ t' h. rw (zrange-pruned redis client_id window db agrees.typed t t' h) (
          All-keep _ _ (zrange redis t' (rate_limit client_id) db) (
            All-map _ _ (zrange redis t' (rate_limit client_id) db) (λ e o. (o.0, omega arith))
              (agrees.owned t' (omega arith))));
    }

    -- A request at a later time has a member of its own.
    members-fresh :
        (t : ℕ)
        → last < t
        → All
            (λ e. e.member ≢ request_id_of t client_id)
            (keep (outside 0 (sub_ℕ t (window * 1000))) (zrange redis t (rate_limit client_id) db))
    members-fresh t lt = All-keep _ _ (zrange redis t (rate_limit client_id) db) (
        All-map _ _ (zrange redis t (rate_limit client_id) db)
          (λ e o same.
            omega (arith, o.1, request_id_of_injective e.score t client_id (sym o.0 ∙ same)))
          (agrees.owned t (omega arith)))

    insert-pruned :
        (t : ℕ)
        → last < t
        → insert_scored
            (record { member = request_id_of t client_id; score = t })
            (zrange redis t (rate_limit client_id) (pruned redis client_id window t db))
          ≡ insert_sorted
              (record { member = request_id_of t client_id; score = t })
              (keep
                (outside 0 (sub_ℕ t (window * 1000)))
                (zrange redis t (rate_limit client_id) db))
    insert-pruned t lt =
        rw (zrange-pruned redis client_id window db agrees.typed t t (omega arith)) (
          ap (insert_sorted (record { member = request_id_of t client_id; score = t }))
            (keep-is_other (request_id_of t client_id) _ (members-fresh t lt)))

    zrange-added :
        (t t' : ℕ)
        → last < t
        → zrange redis t'
            (rate_limit client_id)
            (added redis client_id window t (pruned redis client_id window t db))
          ≡ (if ltb t' (t + (window + 1) * 1000)
              then insert_sorted
                  (record { member = request_id_of t client_id; score = t })
                  (keep
                    (outside 0 (sub_ℕ t (window * 1000)))
                    (zrange redis t (rate_limit client_id) db))
              else [])
    zrange-added t t' lt =
        zrange-added_typed redis client_id window (pruned redis client_id window t db)
          (pruned-IsSortedSet redis client_id window db agrees.typed t) t t'
        ∙ ap (λ xs. if ltb t' (t + (window + 1) * 1000) then xs else []) (insert-pruned t lt)

    count-added :
        (t t' x : ℕ)
        → last < t
        → t ≤ t'
        → t' ≤ x
        → count
            (λ e. in_window window x e.score)
            (if ltb t' (t + (window + 1) * 1000)
              then insert_sorted
                  (record { member = request_id_of t client_id; score = t })
                  (keep
                    (outside 0 (sub_ℕ t (window * 1000)))
                    (zrange redis t (rate_limit client_id) db))
              else [])
          ≡ count (in_window window x) (t ∷ admitted)
    count-added t t' x lt h k = elim (Bool-cases (ltb t' (t + (window + 1) * 1000))) [
      | inl live_yet ↦ rw live_yet (
          count-insert_sorted (λ e. in_window window x e.score)
            (record { member = request_id_of t client_id; score = t }) _
          ∙ ap (λ (n : ℕ). (if in_window window x t then 1 else 0) + n)
              (count-window-outside window t x _ (omega arith)
                ∙ agrees.counts t x (omega arith) (omega arith)))
      | inr expired ↦
          rw expired
            (ground (arith, count_of_expired window last x admitted (ground arith) agrees.bounded))
    ]

    owned-added :
        (t t' : ℕ)
        → last < t
        → All
            (λ e. (e.member ≡ request_id_of e.score client_id) × (e.score ≤ t))
            (if ltb t' (t + (window + 1) * 1000)
              then insert_sorted
                  (record { member = request_id_of t client_id; score = t })
                  (keep
                    (outside 0 (sub_ℕ t (window * 1000)))
                    (zrange redis t (rate_limit client_id) db))
              else [])
    owned-added t t' lt = elim (Bool-cases (ltb t' (t + (window + 1) * 1000))) [
      | inl live_yet ↦ rw live_yet (
          All-insert_sorted _ (record { member = request_id_of t client_id; score = t }) _
            (refl, omega arith)
            (All-keep _ _ (zrange redis t (rate_limit client_id) db) (
              All-map _ _ (zrange redis t (rate_limit client_id) db) (λ e o. (o.0, omega arith))
                (agrees.owned t (omega arith)))))
      | inr expired ↦ rw expired tt
    ]

    -- An admitted call leaves a store that agrees with the longer log.
    pub added-Agrees :
        (t : ℕ)
        → last < t
        → Agrees redis client_id window t
            (t ∷ admitted)
            (added redis client_id window t (pruned redis client_id window t db))
    added-Agrees t lt = record {
      typed =
          added_key-IsSortedSet redis client_id window (pruned redis client_id window t db)
            (pruned-IsSortedSet redis client_id window db agrees.typed t) t;
      bounded = (omega arith, All-map _ _ admitted (λ s h. omega arith) agrees.bounded);
      counts = λ t' x h k. rw (zrange-added t t' lt) (count-added t t' x lt h k);
      owned = λ t' h. rw (zrange-added t t' lt) (owned-added t t' lt);
    }
