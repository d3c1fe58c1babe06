-- ===== src/Database/Transaction.antt =====
-- A transaction: it goes on from the database it is given, or throws, and then what it wrote is
-- rolled back (`withTenantScope` of packages/database/src/tenant-scope.ts; the tenant's role and
-- its row policies are the database's).
use whatsapp_notification_pl.Prelude.{◌≡◌, refl, ap}
use whatsapp_notification_pl.Database.Records.{Database}

pub data Result (E A : Type 0) : Type 0 where
  ok : A → Result E A
  error : E → Result E A

abbrev pub Transaction : Type 0 → Type 0 → Type 0
Transaction E A = Database → Result E (Database × A)

abbrev pub and_then :
    {E A B : Type 0} → Result E (Database × A) → (A → Transaction E B) → Result E (Database × B)
and_then (ok (db, a)) f = f a db
and_then (error e) f = error e

infixl 5 ◌>>=◌ ◌>>◌
abbrev pub ◌>>=◌ : {E A B : Type 0} → Transaction E A → (A → Transaction E B) → Transaction E B
(m >>= f) db = and_then (m db) f

abbrev pub ◌>>◌ : {E B : Type 0} → Transaction E (Unit {0}) → Transaction E B → Transaction E B
(m >> k) db = and_then (m db) (λ _. k)

abbrev pub return : {E A : Type 0} → A → Transaction E A
return a db = ok (db, a)

abbrev pub throw : {E A : Type 0} → E → Transaction E A
throw e db = error e

abbrev pub query : {E A : Type 0} → (Database → A) → Transaction E A
query f db = ok (db, f db)

abbrev pub write : {E : Type 0} → (Database → Database) → Transaction E (Unit {0})
write f db = ok (f db, tt)

abbrev pub statement : {E A : Type 0} → (Database → Database × A) → Transaction E A
statement f db = ok (f db)

-- `rolled_back` is the database without what the transaction wrote.
abbrev pub settle :
    {E A : Type 0} → (rolled_back : Database) → Result E (Database × A) → Database × Result E A
settle rolled_back (ok (db, a)) = (db, ok a)
settle rolled_back (error e) = (rolled_back, error e)

pub ok-injective :
    {E A : Type 0} (db db' : Database) (a b : A)
    → ◌≡◌ {A = Result E (Database × A)} (ok (db, a)) (ok (db', b))
    → (db ≡ db') × (a ≡ b)
ok-injective {A = A} db db' a b h = (ap database_of h, ap value_of h)
  where
    database_of : {E : Type 0} → Result E (Database × A) → Database
    database_of (ok r) = r.0
    database_of (error e) = db

    value_of : {E : Type 0} → Result E (Database × A) → A
    value_of (ok r) = r.1
    value_of (error e) = a

-- A transaction that ends well has gone through all its steps.
pub and_then-ok :
    {E A B : Type 0} (r : Result E (Database × A)) (f : A → Transaction E B) (db' : Database)
    (b : B)
    → and_then r f ≡ ok (db', b)
    → (db : Database) × (a : A) × (r ≡ ok (db, a)) × (f a db ≡ ok (db', b))
and_then-ok (ok (db, a)) f db' b h = (db, a, refl, h)
and_then-ok (error e) f db' b h = cc
