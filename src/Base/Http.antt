-- ===== src/Base/Http.antt =====
-- What a request handler gives back: its answer, or an `HTTPException` with its status code.
use Prim.Native.Nat.{ℕ}
use mathlib.Core.Path.{◌≡◌, refl}
use mathlib.Core.Bool.{Bool, true, false}
use Prim.Native.String.{String}

pub data Response {ℓ} (A : Type ℓ) : Type ℓ where
  ok : A → Response A
  http : ℕ → String → Response A

-- An exception ends the handler; an answer goes to what follows.
infixl 5 ◌>>=◌
abbrev pub ◌>>=◌ {ℓ κ} :
    {A : Type ℓ} {B : Type κ} (m : Response A) (next : A → Response B) → Response B
http code detail >>= next = http code detail
ok answer >>= next = next answer

infixl 5 ◌>>◌
abbrev pub ◌>>◌ {ℓ} : {B : Type ℓ} (check : Response (Unit {0})) (next : Response B) → Response B
http code detail >> next = http code detail
ok passed >> next = next

-- `if bad: raise HTTPException(code, detail)`
abbrev pub reject_if : Bool → ℕ → String → Response (Unit {0})
reject_if true code detail = http code detail
reject_if false code detail = ok tt

-- A chain that answers had an answer at its first step.
pub >>=-eq-ok {ℓ κ} :
    {A : Type ℓ} {B : Type κ} (request : Response A) (next : A → Response B) {end : B}
    → (request >>= next) ≡ ok end
    → (answer : A) × (request ≡ ok answer) × (next answer ≡ ok end)
>>=-eq-ok (http code detail) next answered = cc
>>=-eq-ok (ok answer) next answered = (answer, refl, answered)

-- A check that let the rest go on.
pub reject_if-ok :
    {A : Type 0} (b : Bool) (code : ℕ) (detail : String) (next : Response A) (a : A)
    → (reject_if b code detail >> next) ≡ ok a
    → (b ≡ false) × (next ≡ ok a)
reject_if-ok true code detail next a h = cc
reject_if-ok false code detail next a h = (refl, h)

pub >>-eq-ok :
    {A : Type 0} (m : Response (Unit {0})) (next : Response A) (a : A)
    → (m >> next) ≡ ok a
    → next ≡ ok a
>>-eq-ok (http code detail) next a h = cc
>>-eq-ok (ok tt) next a h = h
