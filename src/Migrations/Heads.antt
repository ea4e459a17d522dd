-- ===== src/Migrations/Heads.antt =====
-- migrations/versions: two of the revisions are roots, both create the table `users`, and the head
-- revises both.
use mathlib.Core.List.{Memᴰ}
use mathlib.Core.List.Memᴰ
use api_gateway_with_abuse_d.Prelude.{
  ◌≡◌, refl, sym, subst, ◌⊎◌, inl, inr, false, none, some, List, [], ◌∷◌, All, Option-cases,
}
use api_gateway_with_abuse_d.Migrations.{Table, Ddl, with_column, find_column}
use api_gateway_with_abuse_d.Migrations.Versions.{
  Revision, create_users_table, initial_schema, add_role_column, merge_heads, merge_heads_again,
  down_revision, first_users, initial_users, role_column, run_migrations, migrate,
}

-- An order in which Alembic may run the revisions of a list, where those of another have been run:
-- each one behind all that it revises.
abbrev pub IsOrder : List Revision → List Revision → Type 0
IsOrder done [] = Unit {0}
IsOrder done (r ∷ rs) = All (λ q. Memᴰ q done) (down_revision r) × IsOrder (r ∷ done) rs

All-Memᴰ : (P : Revision → Type 0) (q : Revision) (qs : List Revision) → Memᴰ q qs → All P qs → P q
All-Memᴰ P q _ (Memᴰ.head e) h = subst P (sym e) h.0
All-Memᴰ P q _ (Memᴰ.tail {xs = qs} m) h = All-Memᴰ P q qs m h.1

-- What a revision of an order revises is in the order too, or has been run.
revised-Memᴰ :
    (done order : List Revision) (r q : Revision)
    → IsOrder done order
    → Memᴰ r order
    → Memᴰ q (down_revision r)
    → Memᴰ q done ⊎ Memᴰ q order
revised-Memᴰ done [] r q h (m) n = absurd (Memᴰ.not-nil m)
revised-Memᴰ done (x ∷ rs) r q (revised, rest) (Memᴰ.head e) n = inl (
    All-Memᴰ (λ y. Memᴰ y done) q (down_revision x) (subst (λ y. Memᴰ q (down_revision y)) e n)
      revised)
revised-Memᴰ done (x ∷ rs) r q (revised, rest) (Memᴰ.tail m) n =
    elim (revised-Memᴰ (x ∷ done) rs r q rest m n) [
      | inl earlier ↦ elim (Memᴰ.cases_cons earlier) [ inl e ↦ inr (Memᴰ.head e) | inr k ↦ inl k ]
      | inr k ↦ inr (Memᴰ.tail k)
    ]

-- In an order from nothing.
needs :
    (order : List Revision) (r q : Revision)
    → IsOrder [] order
    → Memᴰ r order
    → Memᴰ q (down_revision r)
    → Memᴰ q order
needs order r q h m n = elim (revised-Memᴰ [] order r q h m n) [
  | inl k ↦ absurd (Memᴰ.not-nil k)
  | inr k ↦ k
]

head-needs-roots :
    (order : List Revision)
    → IsOrder [] order
    → Memᴰ merge_heads_again order
    → Memᴰ create_users_table order × Memᴰ initial_schema order
head-needs-roots order h m =
    let merged = needs order merge_heads_again merge_heads h m (Memᴰ.head refl) in
    let role = needs order merge_heads add_role_column h merged (Memᴰ.tail (Memᴰ.head refl)) in
    (
      needs order merge_heads create_users_table h merged (Memᴰ.head refl),
      needs order add_role_column initial_schema h role (Memᴰ.head refl),
    )

-- One of the two revisions that create the table is still to run.
abbrev Pending : List Revision → Type 0
Pending order = Memᴰ create_users_table order ⊎ Memᴰ initial_schema order

Memᴰ-later : {r x : Revision} {rs : List Revision} → ¬ (r ≡ x) → Memᴰ r (x ∷ rs) → Memᴰ r rs
Memᴰ-later ne (Memᴰ.head e) = absurd (ne e)
Memᴰ-later ne (Memᴰ.tail m) = m

Pending-later :
    (x : Revision) (rs : List Revision)
    → ¬ (create_users_table ≡ x)
    → ¬ (initial_schema ≡ x)
    → Pending (x ∷ rs)
    → Pending rs
Pending-later x rs ne ne' (inl m) = inl (Memᴰ-later ne m)
Pending-later x rs ne ne' (inr m) = inr (Memᴰ-later ne' m)

module _ (ddl : Ddl) where
  -- Where the table is there, a revision that creates it raises.
  twice :
      (order : List Revision) (s : ddl.Schema) (d : Table)
      → ddl.table "users" s ≡ some d
      → Pending order
      → run_migrations ddl order s ≡ none
  unfolding run_migrations
  twice [] s d h (inl m) = absurd (Memᴰ.not-nil m)
  twice [] s d h (inr m) = absurd (Memᴰ.not-nil m)
  twice (create_users_table ∷ rs) s d h m = rw (ddl.create-exists "users" first_users s h) refl
  twice (initial_schema ∷ rs) s d h m = rw (ddl.create-exists "users" initial_users s h) refl
  twice (merge_heads ∷ rs) s d h m =
      twice rs s d h (Pending-later merge_heads rs (λ e. cc) (λ e. cc) m)
  twice (merge_heads_again ∷ rs) s d h m =
      twice rs s d h (Pending-later merge_heads_again rs (λ e. cc) (λ e. cc) m)
  twice (add_role_column ∷ rs) s d h m = elim (Option-cases (find_column "role" d.columns)) [
    | inr (c, there) ↦ rw (ddl.add-exists "users" role_column s h there) refl
    | inl absent ↦
        let (s', added, tables) = ddl.add-new "users" role_column s h absent in
        rw added (
          twice rs s' (with_column role_column d) (tables "users")
            (Pending-later add_role_column rs (λ e. cc) (λ e. cc) m))
  ]

  -- Where it is not, the first of the two creates it, and the other one raises.
  roots_clash :
      (order : List Revision) (s : ddl.Schema)
      → Memᴰ create_users_table order
      → Memᴰ initial_schema order
      → run_migrations ddl order s ≡ none
  unfolding run_migrations
  roots_clash [] s m n = absurd (Memᴰ.not-nil m)
  roots_clash (merge_heads ∷ rs) s m n =
      roots_clash rs s (Memᴰ-later (λ e. cc) m) (Memᴰ-later (λ e. cc) n)
  roots_clash (merge_heads_again ∷ rs) s m n =
      roots_clash rs s (Memᴰ-later (λ e. cc) m) (Memᴰ-later (λ e. cc) n)
  roots_clash (create_users_table ∷ rs) s m n = elim (Option-cases (ddl.table "users" s)) [
    | inr (d, there) ↦ twice (create_users_table ∷ rs) s d there (inl m)
    | inl missing ↦
        let (s', created, tables) = ddl.create-new "users" first_users s missing in
        rw created (twice rs s' first_users (tables "users") (inr (Memᴰ-later (λ e. cc) n)))
  ]
  roots_clash (initial_schema ∷ rs) s m n = elim (Option-cases (ddl.table "users" s)) [
    | inr (d, there) ↦ twice (initial_schema ∷ rs) s d there (inl m)
    | inl missing ↦
        let (s', created, tables) = ddl.create-new "users" initial_users s missing in
        rw created (twice rs s' initial_users (tables "users") (inl (Memᴰ-later (λ e. cc) m)))
  ]
  roots_clash (add_role_column ∷ rs) s m n = elim (Option-cases (ddl.table "users" s)) [
    | inr (d, there) ↦ twice (add_role_column ∷ rs) s d there (inl m)
    | inl missing ↦ rw (ddl.add-missing "users" role_column s missing) refl
  ]

-- Whatever the schema is, and in whatever order Alembic runs the revisions, as long as each comes
-- behind those that it revises: an upgrade from nothing that includes the head raises, and its
-- transaction leaves the schema as it was.
pub upgrade-head_fails :
    (ddl : Ddl) (order : List Revision) (s : ddl.Schema)
    → IsOrder [] order
    → Memᴰ merge_heads_again order
    → migrate ddl false order s ≡ (false, s)
unfolding migrate
upgrade-head_fails ddl order s h m =
    let (create, initial) = head-needs-roots order h m in
    rw (roots_clash ddl order s create initial) refl
