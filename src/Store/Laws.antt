-- ===== src/Store/Laws.antt =====
-- Inversion of what a transaction returned.
use aleyacloud_relay.Base.{false, ◌≡◌, refl, ◌⊎◌, inl, inr, arith, List, [], ◌∷◌}
use aleyacloud_relay.Models.Audit.{AuditLog}
use aleyacloud_relay.Store.{Db, Error, Result, ok, raise, Tx, ◌>>=◌, atomic}

pub Result-cases :
    {A : Type 0} (r : Result A) → ((a : A) × (r ≡ ok a)) ⊎ ((e : Error) × (r ≡ raise e))
Result-cases (ok a) = inl (a, refl)
Result-cases (raise e) = inr (e, refl)

-- A transaction of two parts that returned has run the first and then the second.
pub atomic->>= :
    {A B : Type 0} (m : Tx A) (f : A → Tx B) (db : Db) {b : B}
    → (atomic (m >>= f) db).0 ≡ ok b
    → (a : A) × (mid : Db) × (m false db ≡ ok (a, mid))
      × (f a false mid ≡ ok (b, (atomic (m >>= f) db).1))
atomic->>= m f db {b} h = elim (Result-cases (m false db)) [
  | inl ((a, mid), e) ↦ (a, mid, e, ground arith)
  | inr (x, e) ↦ ground arith
]

pub atomic-ok :
    {A : Type 0} (m : Tx A) (db : Db) {after : Db} {a : A}
    → m false db ≡ ok (a, after)
    → atomic m db ≡ (ok a, after)
atomic-ok m db e = ground arith

pub atomic-raise :
    {A : Type 0} (m : Tx A) (db : Db) {x : Error}
    → m false db ≡ raise x
    → atomic m db ≡ (raise x, db)
atomic-raise m db e = ground arith

abbrev pub tail : List AuditLog → List AuditLog
tail [] = []
tail (e ∷ es) = es

-- At most one audit entry has been written, on top of the others.
abbrev pub Logs : (old new : List AuditLog) → Type 0
Logs old new = (new ≡ old) ⊎ (tail new ≡ old)
