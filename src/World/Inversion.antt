-- ===== src/World/Inversion.antt =====
-- What a coroutine that returned has gone through.
use api_gateway_with_abuse_d.Prelude.{◌≡◌, refl, sym, ap}
use api_gateway_with_abuse_d.Platform.{Platform}
use api_gateway_with_abuse_d.World.{World, Exn, Result, ok, err, Exec}
use api_gateway_with_abuse_d.World.Exec.{continue}

pub err≢ok : {A : Type 0} {e : Exn} {a : A} → err e ≡ ok a → ⊥
err≢ok h = cc

pub ok_injective : {A : Type 0} {a b : A} → ok a ≡ ok b → a ≡ b
ok_injective h = cc

pub err_injective : {A : Type 0} {d e : Exn} (r : Result A) → r ≡ err d → r ≡ err e → d ≡ e
err_injective r g h = cc

-- A bind that returned has a first part that returned, and goes on from there.
pub continue-returned :
    {p : Platform} {A B : Type 0} (r : Result A × World p) (f : A → Exec p B) {b : B}
    → (continue r f).0 ≡ ok b
    → (a : A) × (r.0 ≡ ok a) × (continue r f ≡ f a r.1)
continue-returned (ok a, w) f h = (a, refl, refl)
continue-returned (err e, w) f h = absurd (err≢ok h)

-- A bind whose first part raised stops there.
pub continue-raised :
    {p : Platform} {A B : Type 0} (r : Result A × World p) (f : A → Exec p B) {e : Exn}
    → r.0 ≡ err e
    → continue r f ≡ (err e, r.1)
continue-raised (ok a, w) f h = absurd (err≢ok (sym h))
continue-raised (err d, w) f h = ap (λ x. (err x, w)) (err_injective (err d) refl h)

-- A bind whose first part is known to return goes on from where that ends.
pub continue-ok :
    {p : Platform} {A B : Type 0} (r : Result A × World p) (f : A → Exec p B) {a : A}
    → r.0 ≡ ok a
    → continue r f ≡ f a r.1
continue-ok r f {a = a} h = ap (λ x. continue (x, r.1) f) h
