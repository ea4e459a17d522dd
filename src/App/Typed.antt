-- ===== src/App/Typed.antt =====
-- The type of what each key of Redis holds, by the first letter of the key, kept by every command.
use api_gateway_with_abuse_d.Prelude.{
  ℕ, ◌+◌, String, ◌≡◌, refl, ◌≢◌, ap, sym, ◌∙◌, Option, none, some, List, [], ◌∷◌, ◌==◌, eq_iff,
  eqb, if◌then◌else◌, str, int, int-str, str-one, Bool-cases, inl, inr,
}
use api_gateway_with_abuse_d.Redis.{
  Cell, Value, Scored, text, members, scored, live, is_live, incr_cell, expire_cell, sadd_cell,
  zadd_cell, cut_cell, cut_value, non_empty, next_value, next_text, add_member, add_scored,
}
use api_gateway_with_abuse_d.Platform.{Platform}
use api_gateway_with_abuse_d.App.Commands.{
  Command, count_failure, expire_failures, block, unblock, prune_log, log_request, expire_log,
  log_time, trim_times, expire_times, log_event, switch_shadow, store_ip, store_agent, issue,
  key_of, effect, cell-issue, initial, initial_of, initial-key_of,
}

pub data Kind : Type 0 where
  counter log set plain : Kind

-- `f`ailed_auth: counters; `r`ate_limit: and `r`equest_times: sorted sets; `k`nown_bad_ips and
-- `a`busive_agents: sets; the others texts.
abbrev pub kind_of_initial : ℕ → Kind
kind_of_initial n =
    if eqb n b'f'
    then counter
    else if eqb n b'r'
    then log
    else if eqb n b'k'
    then set
    else if eqb n b'a'
    then set
    else plain

abbrev pub IsTyped : Kind → Value → Option ℕ → Type 0
IsTyped counter (text s) d = (n : ℕ) × (s ≡ str n)
IsTyped log (scored xs) d = Unit {0}
IsTyped set (members ms) d = d ≡ none
IsTyped plain (text s) d = Unit {0}
IsTyped _ _ d = ⊥

-- A key that is missing has every type; a set has no expiry.
abbrev pub OfKind : Kind → Option Cell → Type 0
OfKind k none = Unit {0}
OfKind k (some c) = IsTyped k c.value c.deadline

live-OfKind : (k : Kind) (t : ℕ) (cell : Option Cell) → OfKind k cell → OfKind k (live t cell)
live-OfKind k t none h = tt
live-OfKind k t (some c) h = elim (Bool-cases (is_live t c.deadline)) [
  | inl e ↦ rw e h
  | inr e ↦ rw e tt
]

incr_value-OfKind :
    (v : Value) (d : Option ℕ) → IsTyped counter v d → IsTyped counter (next_value v) d
incr_value-OfKind (text s) d (n, e) = (n + 1, ap (λ x. next_text x s) (ap int e ∙ int-str n))
incr_value-OfKind _ d h = absurd h

incr_cell-OfKind : (cell : Option Cell) → OfKind counter cell → OfKind counter (incr_cell cell)
incr_cell-OfKind none h = (1, sym str-one)
incr_cell-OfKind (some c) h = incr_value-OfKind c.value c.deadline h

expire_value-IsTyped :
    (k : Kind) (v : Value) (d d' : Option ℕ) → k ≢ set → IsTyped k v d → IsTyped k v d'
expire_value-IsTyped counter (text s) d d' ne h = h
expire_value-IsTyped log (scored xs) d d' ne h = h
expire_value-IsTyped plain (text s) d d' ne h = h
expire_value-IsTyped set v d d' ne h = absurd (ne refl)
expire_value-IsTyped _ _ d d' ne h = absurd h

expire_cell-OfKind :
    (k : Kind) (t secs : ℕ) (cell : Option Cell)
    → k ≢ set
    → OfKind k cell
    → OfKind k (expire_cell t secs cell)
expire_cell-OfKind k t secs none ne h = tt
expire_cell-OfKind k t secs (some c) ne h = expire_value-IsTyped k c.value c.deadline _ ne h

add_scored-IsTyped :
    (a : Scored) (v : Value) (d : Option ℕ) → IsTyped log v d → IsTyped log (add_scored a v) d
add_scored-IsTyped a (scored xs) d h = tt
add_scored-IsTyped a _ d h = absurd h

zadd_cell-OfKind :
    (s : ℕ) (m : String) (cell : Option Cell) → OfKind log cell → OfKind log (zadd_cell s m cell)
zadd_cell-OfKind s m none h = tt
zadd_cell-OfKind s m (some c) h = add_scored-IsTyped _ c.value c.deadline h

non_empty-OfKind : (d : Option ℕ) (xs : List Scored) → OfKind log (non_empty d xs)
non_empty-OfKind d [] = tt
non_empty-OfKind d (x ∷ xs) = tt

cut_value-OfKind :
    (f : List Scored → List Scored) (d : Option ℕ) (v : Value)
    → IsTyped log v d
    → OfKind log (cut_value f d v)
cut_value-OfKind f d (scored xs) h = non_empty-OfKind d (f xs)
cut_value-OfKind f d _ h = absurd h

cut_cell-OfKind :
    (f : List Scored → List Scored) (cell : Option Cell)
    → OfKind log cell
    → OfKind log (cut_cell f cell)
cut_cell-OfKind f none h = tt
cut_cell-OfKind f (some c) h = cut_value-OfKind f c.deadline c.value h

add_member-IsTyped :
    (m : String) (v : Value) (d : Option ℕ) → IsTyped set v d → IsTyped set (add_member m v) d
add_member-IsTyped m (members ms) d h = h
add_member-IsTyped m _ d h = absurd h

sadd_cell-OfKind :
    (m : String) (cell : Option Cell) → OfKind set cell → OfKind set (sadd_cell m cell)
sadd_cell-OfKind m none h = refl
sadd_cell-OfKind m (some c) h = add_member-IsTyped m c.value c.deadline h

effect-OfKind :
    (p : Platform) (c : Command) (t : ℕ) (cell : Option Cell)
    → OfKind (kind_of_initial (initial_of c)) cell
    → OfKind (kind_of_initial (initial_of c)) (effect p c t cell)
effect-OfKind p (count_failure who) t cell h = incr_cell-OfKind _ (live-OfKind counter t cell h)
effect-OfKind p (expire_failures who secs) t cell h =
    expire_cell-OfKind counter t secs _ (λ e. cc) (live-OfKind counter t cell h)
effect-OfKind p (block ip ttl) t cell h = tt
effect-OfKind p (unblock ip) t cell h = tt
effect-OfKind p (prune_log client_id now window) t cell h =
    cut_cell-OfKind _ _ (live-OfKind log t cell h)
effect-OfKind p (log_request client_id now request_id) t cell h =
    zadd_cell-OfKind _ _ _ (live-OfKind log t cell h)
effect-OfKind p (expire_log client_id secs) t cell h =
    expire_cell-OfKind log t secs _ (λ e. cc) (live-OfKind log t cell h)
effect-OfKind p (log_time client_id now) t cell h =
    zadd_cell-OfKind _ _ _ (live-OfKind log t cell h)
effect-OfKind p (trim_times client_id n) t cell h = cut_cell-OfKind _ _ (live-OfKind log t cell h)
effect-OfKind p (expire_times client_id) t cell h =
    expire_cell-OfKind log t 3600 _ (λ e. cc) (live-OfKind log t cell h)
effect-OfKind p (log_event request_id event ttl) t cell h = tt
effect-OfKind p (switch_shadow enabled) t cell h = tt
effect-OfKind p (store_ip ip) t cell h = sadd_cell-OfKind ip _ (live-OfKind set t cell h)
effect-OfKind p (store_agent agent) t cell h = sadd_cell-OfKind agent _ (live-OfKind set t cell h)

-- Every key of a store holds what its first letter says.
unfoldable pub IsWellTyped : (p : Platform) → p.redis.Db → Type 0
unfolding initial
IsWellTyped p db = (k : String) → OfKind (kind_of_initial (initial k)) (p.redis.cell k db)

pub issue-IsWellTyped :
    (p : Platform) (c : Command) (t : ℕ) (db : p.redis.Db)
    → IsWellTyped p db
    → IsWellTyped p (issue p c t db)
unfolding IsWellTyped
issue-IsWellTyped p c t db typed k = elim (Bool-cases (key_of c == k)) [
  | inr other ↦ rw (cell-issue p c t db k, other) (typed k)
  | inl own ↦
      let same = (eq_iff (key_of c) k).0 own in
      let kind = ap kind_of_initial (sym (ap initial same) ∙ initial-key_of c) in
      rw (cell-issue p c t db k, own, kind)
        (effect-OfKind p c t (p.redis.cell (key_of c) db)
          (rw (← initial-key_of c) (typed (key_of c))))
]
