-- ===== src/App/Answers.antt =====
-- Which exceptions can leave the application, in a store that has the types of Typed.antt.
use api_gateway_with_abuse_d.Prelude.{
  ℕ, String, ◌≡◌, refl, ◌≢◌, ◌⊎◌, inl, inr, true, false, Bool, Option, none, some, ap, int, str,
  int-str, Bool-cases,
}
use api_gateway_with_abuse_d.Redis.{Cell, Value, text, get, live, is_live, text_of}
use api_gateway_with_abuse_d.Redis.Keys.{failed_auth}
use api_gateway_with_abuse_d.Platform.{Platform}
use api_gateway_with_abuse_d.Config.{Settings}
use api_gateway_with_abuse_d.World.{
  World, Exn, index_error, password_error, database_error, Result, ok, err,
}
use api_gateway_with_abuse_d.World.Http.{Request, Response}
use api_gateway_with_abuse_d.App.{Endpoint, Event, handle, serve}
use api_gateway_with_abuse_d.App.Commands.{initial-append}
use api_gateway_with_abuse_d.App.Outcome.{Contract, returned, raised, Settles}
use api_gateway_with_abuse_d.App.Stack.{serve-Runs}
use api_gateway_with_abuse_d.App.Lasting.{over_store, script-kept, handle-Good}
use api_gateway_with_abuse_d.App.Typed.{
  counter, kind_of_initial, IsTyped, OfKind, IsWellTyped, issue-IsWellTyped,
}

pub handle-IsWellTyped :
    (p : Platform) (settings : Settings) (e : Event) (w : World p)
    → IsWellTyped p w.db
    → IsWellTyped p (handle p settings e w).db
handle-IsWellTyped p settings e w typed =
    handle-Good (over_store p (IsWellTyped p) (issue-IsWellTyped p)) settings e w
      (λ up v good. good) tt typed

none≢some : {s : String} → none ≡ some s → ⊥
none≢some h = cc

off≢on : {b : Bool} → b ≡ true → b ≡ false → ⊥
off≢on h g = cc

value_text :
    (v : Value) (d : Option ℕ) (s : String)
    → IsTyped counter v d
    → text_of (some (record { value = v; deadline = d })) ≡ some s
    → (n : ℕ) × (s ≡ str n)
value_text (text x) d s (n, decimal) held = (n, cc)
value_text _ d s h held = absurd h

counter_text :
    (t : ℕ) (cell : Option Cell) (s : String)
    → OfKind counter cell
    → text_of (live t cell) ≡ some s
    → (n : ℕ) × (s ≡ str n)
counter_text t none s h held = cc
counter_text t (some c) s h held = elim (Bool-cases (is_live t c.deadline)) [
  | inl alive ↦ value_text c.value c.deadline s h (rw alive at held)
  | inr dead ↦ absurd (none≢some (rw dead at held))
]

count-ne_garbled :
    (p : Platform) (who s : String) (w : World p)
    → IsWellTyped p w.db
    → get p.redis w.now (failed_auth who) w.db ≡ some s
    → int s ≢ none
unfolding IsWellTyped
count-ne_garbled p who s w typed held garbled =
    let kind = ap kind_of_initial (initial-append "f" "ailed_auth:" who) in
    let (n, decimal) = counter_text w.now _ s (rw kind at (typed (failed_auth who))) held in
    cc (int-str n, ap int decimal)

-- The IndexError of a full Bloom filter, the ValueError of bcrypt, and the errors of the database.
abbrev pub IsLibraryError : Exn → Type 0
IsLibraryError index_error = Unit {0}
IsLibraryError password_error = Unit {0}
IsLibraryError (database_error e) = Unit {0}
IsLibraryError _ = ⊥

abbrev answering : (p : Platform) → Contract p
answering p = record {
  Good = λ w. IsWellTyped p w.db × (w.redis_up ≡ true);
  Raises = IsLibraryError;
  Allows = λ limit. Unit {0};
  later = λ ms w h. h;
  counted = λ m w h. h;
  measured = λ g w h. h;
  pooled = λ pool w h. h;
  drawn = λ w h. h;
  joined = λ u w registered missing added h. h;
  ip_added = λ ip f w added h. h;
  agent_added = λ agent f w added h. h;
  synced = λ b w h. h;
  issued = λ c w single h. (issue-IsWellTyped p c w.now w.db h.0, h.1);
  checked = λ client_id request_id limit window w allows h. (
    script-kept p (IsWellTyped p) (issue-IsWellTyped p) client_id request_id w.now window limit
        w.now w.db h.0,
    h.1,
  );
  full = tt;
  long = tt;
  lost = λ e. tt;
  down = λ w h off. absurd (off≢on h.1 off);
  garbled = λ who s w h held garbled. absurd (count-ne_garbled p who s w h.0 held garbled);
}

abbrev pub IsAnswered : Result Response → Type 0
IsAnswered r =
    ((response : Response) × (r ≡ ok response)) ⊎ ((e : Exn) × (r ≡ err e) × IsLibraryError e)

settled : (p : Platform) (r : Result Response × World p) → Settles (answering p) r → IsAnswered r.0
settled p _ (returned {a} done good) = inl (a, refl)
settled p _ (raised {e} library good) = inr (e, refl, library)

pub serve-IsAnswered :
    (p : Platform) (settings : Settings) (endpoint : Endpoint) (request : Request) (w : World p)
    → IsWellTyped p w.db
    → w.redis_up ≡ true
    → IsAnswered (serve p settings endpoint request w).0
serve-IsAnswered p settings endpoint request w typed up =
    settled p _ (serve-Runs (answering p) settings endpoint request tt w (typed, up))
