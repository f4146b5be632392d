-- ===== src/MusigSession/Effects.antt =====
-- Predicates on the session that an operation leaves, whatever its outcome.
use lotus_sdk.Common.{◌≡◌, refl, Bool, true, false, Option, none, some, if◌then◌else◌}
use lotus_sdk.MusigSession.{Session, returned, failed, SessionError, Effect, called}

-- What a call leaves satisfies a predicate that holds of the session before, if what it goes on with
-- does.
pub called-left {κ} :
    {Value Other : Type κ} (P : Session → Type 0) (s : Session) (e : SessionError)
    (o : Option Value) (go : Value → Effect Other)
    → P s
    → ((v : Value) → P (go v).0)
    → P (called s e o go).0
called-left P s e none go h k = h
called-left P s e (some v) go h k = k v

pub if-left {κ} :
    {Value : Type κ} (P : Session → Type 0) (test : Bool) (a b : Effect Value)
    → P a.0
    → P b.0
    → P (if test then a else b).0
if-left P true a b h k = h
if-left P false a b h k = k

failed-ne-returned {κ} : {Value : Type κ} {e : SessionError} {w : Value} → failed e ≡ returned w → ⊥
failed-ne-returned q = cc

-- Where a call returned, the part behind it returned.
pub called-returned {κ} :
    {Value Other : Type κ} (P : Session → Type 0) (s : Session) (e : SessionError)
    (o : Option Value) (go : Value → Effect Other) {w : Other}
    → ((v : Value) → (go v).1 ≡ returned w → P (go v).0)
    → (called s e o go).1 ≡ returned w
    → P (called s e o go).0
called-returned P s e none go k h = absurd (failed-ne-returned h)
called-returned P s e (some v) go k h = k v h

pub guarded-returned {κ} :
    {Value : Type κ} (P : Session → Type 0) (s : Session) (e : SessionError) (test : Bool)
    (b : Effect Value) {w : Value}
    → (b.1 ≡ returned w → P b.0)
    → (if test then (s, failed e) else b).1 ≡ returned w
    → P (if test then (s, failed e) else b).0
guarded-returned P s e true b k h = absurd (failed-ne-returned h)
guarded-returned P s e false b k h = k h

-- The branch that is taken knows the test.
pub guarded-left {κ} :
    {Value : Type κ} (P : Session → Type 0) (test : Bool) (a b : Effect Value)
    → P a.0
    → (test ≡ false → P b.0)
    → P (if test then a else b).0
guarded-left P true a b h k = h
guarded-left P false a b h k = k refl
