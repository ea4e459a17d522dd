-- ===== src/Platform/Reference.antt =====
-- A platform whose laws hold: filters and tables as lists, tokens and hashes that hide nothing.
use api_gateway_with_abuse_d.Prelude.{
  ℕ, String, ◌≡◌, refl, Bool, true, false, ◌||◌, Option, none, some, List, [], ◌∷◌, ◌==◌, arith,
  eq_refl, if◌then◌else◌, str, Bool-cases, inl, inr, braced, behind_first, braced-ne_empty,
}
use api_gateway_with_abuse_d.Redis.{contains}
use api_gateway_with_abuse_d.Redis.Reference.{memory}
use api_gateway_with_abuse_d.Platform.{
  Bloom, Jwt, Bcrypt, User, UserTable, Json, Platform, integrity_error,
}

abbrev pub add_to : String → List String → Option (List String)
add_to x f = some (x ∷ f)

eq_of_some {ℓ} : {A : Type ℓ} {a b : A} → some a ≡ some b → b ≡ a
eq_of_some e = cc

pub has-added :
    (x : String) (f : List String) {g : List String} → add_to x f ≡ some g → contains x g ≡ true
unfolding contains
has-added x f {g} e = let same : g ≡ x ∷ f = eq_of_some e in rw same (rw eq_refl)

pub has-added_other :
    (x y : String) (f : List String) {g : List String}
    → add_to y f ≡ some g
    → contains x f ≡ true
    → contains x g ≡ true
unfolding contains
has-added_other x y f {g} e h = let same : g ≡ y ∷ f = eq_of_some e in rw same (ground arith)

pub has-empty : (x : String) → contains x [] ≡ false
unfolding contains
has-empty x = refl

abbrev pub listed_bloom : Bloom
listed_bloom = record {
  Filter = List String;
  new = [];
  add = add_to;
  has = contains;
  has-new = has-empty;
  has-add = has-added;
  has-add_other = has-added_other;
}

-- A token is the role that it carries.
abbrev pub plain_jwt : Jwt
plain_jwt = record {
  encode = λ c. elim c.role [ none ↦ "" | some r ↦ r ];
  decode = λ t s.
      if s == ""
      then none
      else some (record { sub = some "alice"; role = some s; exp = some 1800 });
}

-- The one password that is refused.
abbrev pub long : String
long = "too long"

abbrev pub plain_hash : String → Option String
plain_hash password = if password == long then none else some password

pub checks_own :
    (salt : ℕ) (password : String) {hashed : String}
    → plain_hash password ≡ some hashed
    → (if password == long then none else some (password == hashed)) ≡ some true
checks_own salt password {hashed} e = elim (Bool-cases (password == long)) [
  | inl refused ↦ cc
  | inr fits ↦
      let same : hashed ≡ password = eq_of_some (rw fits at e) in
      rw (fits, same) (rw (eq_refl password) refl)
]

abbrev pub plain_bcrypt : Bcrypt
plain_bcrypt = record {
  hashpw = λ salt password. if password == long then none else some password;
  checkpw = λ password hash. if password == long then none else some (password == hash);
  checkpw-hashpw = checks_own;
}

unfoldable pub select_user : String → List User → Option User
select_user name [] = none
select_user name (u ∷ us) = if u.username == name then some u else select_user name us

unfoldable pub taken : User → List User → Bool
taken u [] = false
taken u (v ∷ vs) = v.username == u.username || v.email == u.email || taken u vs

pub select_user-insert :
    (u : User) (t : List User) (name : String)
    → select_user name (u ∷ t) ≡ (if u.username == name then some u else select_user name t)
unfolding select_user
select_user-insert u t name = refl

abbrev pub listed_users : UserTable
listed_users = record {
  Table = List User;
  select = select_user;
  select_error = λ now name. none;
  insert_error = λ now u us. if taken u us then some integrity_error else none;
  insert = λ u us. u ∷ us;
  select-insert = λ now u us name e. select_user-insert u us name;
}

-- An event is written as its rule behind a brace.
abbrev pub plain_json : Json
plain_json = record {
  dumps = λ e. braced e.rule_triggered;
  loads_rule = behind_first;
  dumps-ne_empty = λ e. braced-ne_empty e.rule_triggered;
  loads-dumps = λ e. refl;
}

abbrev pub reference : Platform
reference = record {
  redis = memory;
  bloom = listed_bloom;
  jwt = plain_jwt;
  bcrypt = plain_bcrypt;
  users = listed_users;
  json = plain_json;
  uuid4 = str;
  fixed_2 = λ d. str d.squares;
}
