-- ===== src/Services/AbuseDetector/Lockout.antt =====
-- app/services/abuse_detector.py, app/routers/auth.py: logins that a burst of failures refuses.
use api_gateway_with_abuse_d.Prelude.{
  ℕ, ◌+◌, ◌*◌, ◌<◌, ◌≤◌, String, append, ◌≡◌, refl, ◌∙◌, true, none, List, ◌∷◌, length, str, leb,
  le→leb, if◌then◌else◌,
}
use api_gateway_with_abuse_d.Redis.{get, live}
use api_gateway_with_abuse_d.Redis.Keys.{failed_auth}
use api_gateway_with_abuse_d.Platform.{Platform}
use api_gateway_with_abuse_d.World.{World, ok}
use api_gateway_with_abuse_d.Services.AbuseDetector.{
  int_or_zero, is_credential_stuffing, stuffing_verdict,
}
use api_gateway_with_abuse_d.Services.AbuseDetector.Failures.{
  Failure, record_failures, IsHit, IsBurst, waited, int_or_zero-read, up-counted, counter-counted,
  burst-Counts,
}

-- The check reads the two counters and decides on them.
is_credential_stuffing-counters :
    (p : Platform) (ip username : String) (i j a b : ℕ) (v : World p)
    → v.redis_up ≡ true
    → (int_or_zero (get p.redis v.now (failed_auth ip) v.db) v).0 ≡ ok i
    → (int_or_zero (get p.redis v.now (failed_auth username) v.db) v).0 ≡ ok j
    → (is_credential_stuffing p ip username a b v).0 ≡ ok (stuffing_verdict i j a b)
unfolding is_credential_stuffing
is_credential_stuffing-counters p ip username i j a b v up first second = simp (
  up,
  int_or_zero-read (get p.redis v.now (failed_auth ip) v.db) v v i first,
  int_or_zero-read (get p.redis v.now (failed_auth username) v.db) v v j second,
)

module _ (p : Platform) (window : ℕ) (who : String) (f : Failure) (fs : List Failure)
    (wait m a b : ℕ) (w : World p) (up : w.redis_up ≡ true)
    (free : live (w.now + f.wait) (p.redis.cell (failed_auth who) w.db) ≡ none) (hit : IsHit who f)
    (burst : IsBurst p window who fs) (soon : wait < window * 1000) where
  abbrev pub burst_end : World p
  burst_end = waited wait (record_failures p window (f ∷ fs) w)

  -- A burst of failed logins in each of which a text occurs once, as the address or as the name, each
  -- before the window of the one before has ended: when they are as many as the threshold for
  -- addresses, every login from the text as an address is refused for a window, with their exact
  -- number as the reason. At the start Redis is up and the text has no counter that is alive; the
  -- counter of the name that is tried then is readable. Addresses and names share their counters.
  pub record_failures-refused :
      (username : String)
      → a ≤ 1 + length fs
      → (int_or_zero (get p.redis burst_end.now (failed_auth username) burst_end.db) burst_end).0
        ≡ ok m
      → (is_credential_stuffing p who username a b burst_end).0
        ≡ ok (true, append "ip_threshold_exceeded:" (str (1 + length fs)))
  record_failures-refused username reached readable =
      let c = burst-Counts p window who f fs w up free hit burst in
      let n = 1 + length fs in
      let last = record_failures p window (f ∷ fs) w in
      is_credential_stuffing-counters p who username n m a b burst_end
        (up-counted p window who n last c) (counter-counted p window who n wait last c soon)
        readable
      ∙ rw (le→leb a n reached) refl

  -- After the same burst, when the failures are as many as the threshold for names, every login with
  -- the text as the name is refused for a window, from whatever address: for the counter of the
  -- address, if it has reached its threshold, and else for the number of the failures. The counter of
  -- the address is readable.
  pub record_failures-refused_name :
      (ip : String)
      → b ≤ 1 + length fs
      → (int_or_zero (get p.redis burst_end.now (failed_auth ip) burst_end.db) burst_end).0 ≡ ok m
      → (is_credential_stuffing p ip who a b burst_end).0
        ≡ ok (
            if leb a m
            then (true, append "ip_threshold_exceeded:" (str m))
            else (true, append "user_threshold_exceeded:" (str (1 + length fs))))
  record_failures-refused_name ip reached readable =
      let c = burst-Counts p window who f fs w up free hit burst in
      let n = 1 + length fs in
      let last = record_failures p window (f ∷ fs) w in
      is_credential_stuffing-counters p ip who m n a b burst_end (up-counted p window who n last c)
        readable (counter-counted p window who n wait last c soon)
      ∙ rw (le→leb b n reached) refl
