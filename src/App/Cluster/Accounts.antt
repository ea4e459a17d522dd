-- ===== src/App/Cluster/Accounts.antt =====
-- The table of users over everything that the processes do.
use api_gateway_with_abuse_d.Prelude.{
  ℕ, String, ◌≡◌, refl, ◌∙◌, sym, none, some, List, ◌⊎◌, inl, inr, Bool-cases, ◌==◌, eq_iff,
}
use api_gateway_with_abuse_d.Platform.{Platform, User}
use api_gateway_with_abuse_d.Config.{Settings}
use api_gateway_with_abuse_d.App.Outcome.{Contract, IsRegistered}
use api_gateway_with_abuse_d.App.Lasting.{handle-Good}
use api_gateway_with_abuse_d.App.Cluster.{Cluster, Move, run_moves}
use api_gateway_with_abuse_d.App.Cluster.Shared.{run_moves-kept_at}

-- From the one table to the other, an account is as it was, or it is a registered one where there was
-- none.
abbrev pub HasGrown : (p : Platform) → p.users.Table → p.users.Table → Type 0
HasGrown p before after =
    (name : String)
    → (p.users.select name after ≡ p.users.select name before)
      ⊎ ((p.users.select name before ≡ none)
          × (u : User) × (p.users.select name after ≡ some u)
          × IsRegistered p u)

missing_before :
    (p : Platform) (before after : p.users.Table) (name : String)
    → HasGrown p before after
    → p.users.select name after ≡ none
    → p.users.select name before ≡ none
missing_before p before after name h missing = elim (h name) [
  | inl same ↦ sym same ∙ missing
  | inr grown ↦ grown.0
]

insert-HasGrown :
    (p : Platform) (before after : p.users.Table) (now : ℕ) (u : User)
    → IsRegistered p u
    → p.users.select u.username after ≡ none
    → p.users.insert_error now u after ≡ none
    → HasGrown p before after
    → HasGrown p before (p.users.insert u after)
insert-HasGrown p before after now u registered missing added h name =
    elim (Bool-cases (u.username == name)) [
      | inr other ↦ rw (p.users.select-insert now u after name added, other) (h name)
      | inl own ↦
          let new : p.users.select name before ≡ none =
            missing_before p before after name h (rw ((eq_iff u.username name).0 own) at missing) in
          rw (p.users.select-insert now u after name added, own) (inr (new, u, refl, registered))
    ]

abbrev growing : (p : Platform) → p.users.Table → Contract p
growing p before = record {
  Good = λ w. HasGrown p before w.users;
  Raises = λ e. Unit {0};
  Allows = λ limit. Unit {0};
  later = λ ms w h. h;
  counted = λ m w h. h;
  measured = λ g w h. h;
  pooled = λ pool w h. h;
  drawn = λ w h. h;
  joined = λ u w registered missing added h.
      insert-HasGrown p before w.users w.now u registered missing added h;
  ip_added = λ ip f w added h. h;
  agent_added = λ agent f w added h. h;
  synced = λ b w h. h;
  issued = λ c w single h. h;
  checked = λ client_id request_id limit window w allows h. h;
  full = tt;
  long = tt;
  lost = λ e. tt;
  down = λ w h off. tt;
  garbled = λ who s w h held none. tt;
}

-- Whatever happens to the processes that share a database: an account is never changed, and an account
-- that is new has the role "user", and a bcrypt hash in place of a password.
pub run_moves-HasGrown :
    (p : Platform) (settings : Settings) (moves : List Move) (c : Cluster p)
    → HasGrown p c.users (run_moves p settings moves c).users
run_moves-HasGrown p settings moves c =
    run_moves-kept_at p (λ t db users. HasGrown p c.users users) settings moves c
      (λ e w h. handle-Good (growing p c.users) settings e w (λ up v good. good) tt h)
      (λ t ms db users h. h) (λ name. inl refl)
