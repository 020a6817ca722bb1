-- ===== src/Store/Effects/Atomic.antt =====
-- Calls that change the database only if they succeed.
use orchex.Prelude.{◌≡◌, refl, ◌∙◌, Bool-cases, inl, inr}
use orchex.Result.{Result, ok, err}
use orchex.Store.Tables.{Db, World}
use orchex.Store.Effects.{
  StoreError, M, ◌>>=◌, continue, recast, or_else, throw, return, statement, finish, tried,
  next_fails, close_tx, in_tx,
}

-- An error leaves the database as it was.
abbrev pub IsAtomic : {E A : Type 0} → M E A → Type 0
IsAtomic {E} m = (w : World) (e : E) → (m w).0 ≡ err e → (m w).1.db ≡ w.db

-- The database stays as it is.
abbrev pub IsReadOnly : {E A : Type 0} → M E A → Type 0
IsReadOnly m = (w : World) → (m w).1.db ≡ w.db

pub statement-IsAtomic : {A : Type 0} (f : Db → Result StoreError (A × Db)) → IsAtomic (statement f)
unfolding statement
statement-IsAtomic {A} f w e h = elim (Bool-cases (next_fails w.faults)) [
  | inl t ↦ rw t
  | inr t ↦ rw t (go (f w.db) (rw t at h))
]
  where
    go :
        (r : Result StoreError (A × Db))
        → (finish (tried w) r).0 ≡ err e
        → (finish (tried w) r).1.db ≡ w.db
    go (ok p) h = cc
    go (err x) h = refl

-- Whatever runs inside, an error of the transaction leaves the database as it was.
pub in_tx-IsAtomic : {A : Type 0} (body : M StoreError A) → IsAtomic (in_tx body)
unfolding in_tx
in_tx-IsAtomic {A} body w e h = elim (Bool-cases (next_fails w.faults)) [
  | inl t ↦ rw t
  | inr t ↦ rw t (go (body (tried w)) (rw t at h))
]
  where
    go :
        (r : Result StoreError A × World)
        → (close_tx w.db r).0 ≡ err e
        → (close_tx w.db r).1.db ≡ w.db
    go (err x, w') h = refl
    go (ok a, w') h = elim (Bool-cases (next_fails w'.faults)) [
      | inl t ↦ rw t
      | inr t ↦ cc (rw t at h)
    ]

pub >>=-IsAtomic :
    {E A B : Type 0} (m : M E A) (k : A → M E B)
    → IsReadOnly m
    → ((a : A) → IsAtomic (k a))
    → IsAtomic (m >>= k)
>>=-IsAtomic {E} {A} {B} m k r i w e h = go (m w) (r w) h
  where
    go :
        (p : Result E A × World)
        → p.1.db ≡ w.db
        → (continue p k).0 ≡ err e
        → (continue p k).1.db ≡ w.db
    go (ok a, w') same h = i a w' e h ∙ same
    go (err x, w') same h = same

pub or_else-IsAtomic :
    {E F A : Type 0} (m : M E A) (f : E → F) → IsAtomic m → IsAtomic (or_else m f)
or_else-IsAtomic {E} {F} {A} m f i w e h = go (m w) (i w) h
  where
    go :
        (p : Result E A × World)
        → ((x : E) → p.0 ≡ err x → p.1.db ≡ w.db)
        → (recast f p).0 ≡ err e
        → (recast f p).1.db ≡ w.db
    go (ok a, w') j h = cc
    go (err x, w') j h = j x refl

pub or_else-IsReadOnly :
    {E F A : Type 0} (m : M E A) (f : E → F) → IsReadOnly m → IsReadOnly (or_else m f)
or_else-IsReadOnly {E} {F} {A} m f i w = go (m w) (i w)
  where
    go : (p : Result E A × World) → p.1.db ≡ w.db → (recast f p).1.db ≡ w.db
    go (ok a, w') j = j
    go (err x, w') j = j

pub return-IsAtomic : {E A : Type 0} (a : A) → IsAtomic {E = E} {A = A} (return a)
return-IsAtomic a w e h = cc

pub throw-IsAtomic : {E A : Type 0} (e : E) → IsAtomic {E = E} {A = A} (throw e)
throw-IsAtomic x w e h = refl

-- A statement that returns the database as it got it.
pub statement-IsReadOnly :
    {A : Type 0} (f : Db → Result StoreError (A × Db))
    → ((db : Db) (a : A) (after : Db) → f db ≡ ok (a, after) → after ≡ db)
    → IsReadOnly (statement f)
unfolding statement
statement-IsReadOnly {A} f same w = elim (Bool-cases (next_fails w.faults)) [
  | inl t ↦ rw t
  | inr t ↦ rw t (go (f w.db) (same w.db))
]
  where
    go :
        (r : Result StoreError (A × Db))
        → ((a : A) (after : Db) → r ≡ ok (a, after) → after ≡ w.db)
        → (finish (tried w) r).1.db ≡ w.db
    go (ok (a, db)) h = h a db refl
    go (err x) h = refl

pub >>=-IsReadOnly :
    {E A B : Type 0} (m : M E A) (k : A → M E B)
    → IsReadOnly m
    → ((a : A) → IsReadOnly (k a))
    → IsReadOnly (m >>= k)
>>=-IsReadOnly {E} {A} {B} m k r i w = go (m w) (r w)
  where
    go : (p : Result E A × World) → p.1.db ≡ w.db → (continue p k).1.db ≡ w.db
    go (ok a, w') same = i a w' ∙ same
    go (err x, w') same = same

-- An atomic call whose value is then only read.
pub >>=-return-IsAtomic :
    {E A B : Type 0} (m : M E A) (f : A → B) → IsAtomic m → IsAtomic (m >>= λ a. return (f a))
>>=-return-IsAtomic {E} {A} {B} m f i w e h = go (m w) (i w) h
  where
    go :
        (p : Result E A × World)
        → ((x : E) → p.0 ≡ err x → p.1.db ≡ w.db)
        → (continue {B = B} p (λ a. return (f a))).0 ≡ err e
        → (continue {B = B} p (λ a. return (f a))).1.db ≡ w.db
    go (ok a, w') j h = cc
    go (err x, w') j h = j x refl
