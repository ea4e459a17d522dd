-- ===== src/Platform.antt =====
-- What the gateway calls and does not implement, besides Redis: pybloom-live, python-jose, bcrypt,
-- the users table behind SQLAlchemy, uuid4, json, and the print of a float. Parameters with laws.
pub mod Reference
use api_gateway_with_abuse_d.Prelude.{
  ℕ, ◌≤◌, String, ◌≡◌, Bool, true, false, Option, none, some, List, ◌==◌, if◌then◌else◌,
}
use api_gateway_with_abuse_d.Redis.{Redis}

-- pybloom_live.BloomFilter at the configured capacity and error rate; `add` raises IndexError,
-- here `none`, on a filter that is full.
pub record Bloom : Type 1 where
  pub Filter : Type 0
  pub new : Filter
  pub add : String → Filter → Option Filter
  pub has : String → Filter → Bool
  pub has-new : (x : String) → has x new ≡ false
  pub has-add : (x : String) (f : Filter) {g : Filter} → add x f ≡ some g → has x g ≡ true
  pub has-add_other :
      (x y : String) (f : Filter) {g : Filter} → add y f ≡ some g → has x f ≡ true → has x g ≡ true

-- The claims that the gateway puts in a token; the expiry is in seconds.
pub record Claims : Type 0 where
  pub sub : Option String
  pub role : Option String
  pub exp : Option ℕ

-- jose.jwt with the secret key and algorithm of the settings. `decode` takes the time in seconds,
-- and is `none` where JWTError is raised; that it reads back a fresh token is a hypothesis of the
-- theorems that need it.
pub record Jwt : Type 1 where
  pub encode : Claims → String
  pub decode : ℕ → String → Option Claims

-- bcrypt; the salt that `gensalt` draws is a number. Both answer `none` where ValueError is raised, as
-- bcrypt 5 does for a password of more than 72 bytes.
pub record Bcrypt : Type 1 where
  pub hashpw : ℕ → String → Option String
  pub checkpw : String → String → Option Bool
  pub checkpw-hashpw :
      (salt : ℕ) (password : String) {hashed : String}
      → hashpw salt password ≡ some hashed
      → checkpw password hashed ≡ some true

-- app/models/user.py
pub record User : Type 0 where
  pub id : String
  pub username : String
  pub email : String
  pub hashed_password : String
  pub is_active : Bool
  pub role : String
  pub created_at : ℕ

-- What SQLAlchemy raises: IntegrityError where a unique column has the value already, DataError for a
-- text that its column does not hold, OperationalError where the database fails; or another exception
-- of SQLAlchemy or of its driver, such as that of a connection that cannot be made.
pub data DatabaseError : Type 0 where
  integrity_error data_error operational_error driver_error : DatabaseError

-- The table `users`. What the query, and the commit of a new row, raise at a time in milliseconds is
-- the database's: any of these errors, or none.
pub record UserTable : Type 1 where
  pub Table : Type 0
  pub select_error : ℕ → String → Option DatabaseError
  pub select : String → Table → Option User
  pub insert_error : ℕ → User → Table → Option DatabaseError
  pub insert : User → Table → Table
  pub select-insert :
      (now : ℕ) (u : User) (t : Table) (name : String)
      → insert_error now u t ≡ none
      → select name (insert u t) ≡ (if u.username == name then some u else select name t)

-- A shadow event as app/services/shadow_logger.py writes it.
pub record ShadowEvent : Type 0 where
  pub request_id : String
  pub rule_triggered : String
  pub client_id : String
  pub path : String
  pub reason : String
  pub timestamp : ℕ

-- json.dumps of an event; json.loads followed by `.get("rule_triggered", "unknown")`, which is
-- `none` where JSONDecodeError is raised.
pub record Json : Type 1 where
  pub dumps : ShadowEvent → String
  pub loads_rule : String → Option String
  pub dumps-ne_empty : (e : ShadowEvent) → (dumps e == "") ≡ false
  pub loads-dumps : (e : ShadowEvent) → loads_rule (dumps e) ≡ some e.rule_triggered

-- A standard deviation, by its square: the variance is `squares / over`.
pub record Deviation : Type 0 where
  pub squares : ℕ
  pub over : ℕ

pub record Platform : Type 1 where
  pub redis : Redis
  pub bloom : Bloom
  pub jwt : Jwt
  pub bcrypt : Bcrypt
  pub users : UserTable
  pub json : Json
  pub uuid4 : ℕ → String
  -- `f"{x:.2f}"` of a standard deviation.
  pub fixed_2 : Deviation → String
