-- ===== src/Store/Effects/Calls.antt =====
-- What a call does to the database, by a relation between the database before and after, whatever
-- calls fail. No such call reaches the queue.
use orchex.Prelude.{◌≡◌, refl, sym, ◌∙◌, subst, ◌⊎◌, Bool-cases, inl, inr}
use orchex.Result.{Result, ok, err}
use orchex.Store.Tables.{Db, World}
use orchex.Store.Effects.{
  StoreError, M, ◌>>=◌, continue, recast, or_else, statement, finish, tried, next_fails, close_tx,
  in_tx,
}

-- The queue is as it was.
pub record SameQueue (w w' : World) : Type 0 where
  pub queue : w'.queue ≡ w.queue
  pub next_handle : w'.next_handle ≡ w.next_handle

SameQueue-refl : (w : World) → SameQueue w w
SameQueue-refl w = record { queue = refl; next_handle = refl }

SameQueue-trans : (u v w : World) → SameQueue u v → SameQueue v w → SameQueue u w
SameQueue-trans u v w a b = record {
  queue = b.queue ∙ a.queue;
  next_handle = b.next_handle ∙ a.next_handle;
}

-- A call that returns `a` relates the database before, `a`, and the database after.
abbrev pub Does : {E A : Type 0} → (Db → A → Db → Type 0) → M E A → Type 0
Does {E} {A} P m =
    (w : World) → SameQueue w (m w).1 × ((a : A) → (m w).0 ≡ ok a → P w.db a (m w).1.db)

pub statement-Does :
    {A : Type 0} (P : Db → A → Db → Type 0) (f : Db → Result StoreError (A × Db))
    → ((db : Db) (a : A) (db' : Db) → f db ≡ ok (a, db') → P db a db')
    → Does P (statement f)
unfolding statement
statement-Does {A} P f h w = elim (Bool-cases (next_fails w.faults)) [
  | inl t ↦ rw t (record { queue = refl; next_handle = refl }, λ a e. cc)
  | inr t ↦ rw t (go (f w.db) refl)
]
  where
    go :
        (r : Result StoreError (A × Db))
        → f w.db ≡ r
        → let p = finish (tried w) r in SameQueue w p.1 × ((a : A) → p.0 ≡ ok a → P w.db a p.1.db)
    go (err x) e = (record { queue = refl; next_handle = refl }, λ a q. cc)
    go (ok (a, db)) e = (
      record { queue = refl; next_handle = refl },
      λ b q. let same : a ≡ b = cc in subst (λ x. P w.db x db) same (h w.db a db e),
    )

pub >>=-Does :
    {E A B : Type 0} (P : Db → A → Db → Type 0) (Q : A → Db → B → Db → Type 0)
    (R : Db → B → Db → Type 0) (m : M E A) (k : A → M E B)
    → ((x : Db) (a : A) (y : Db) (b : B) (z : Db) → P x a y → Q a y b z → R x b z)
    → Does P m
    → ((a : A) → Does (Q a) (k a))
    → Does R (m >>= k)
>>=-Does {E} {A} {B} P Q R m k join first next w = go (m w) (first w)
  where
    go :
        (p : Result E A × World)
        → SameQueue w p.1 × ((a : A) → p.0 ≡ ok a → P w.db a p.1.db)
        → let c = continue p k in SameQueue w c.1 × ((b : B) → c.0 ≡ ok b → R w.db b c.1.db)
    go (err x, w₁) (q, d) = (q, λ b e. cc)
    go (ok a, w₁) (q, d) =
        let (q', d') = next a w₁ in
        (
          SameQueue-trans w w₁ (k a w₁).1 q q',
          λ b e. join w.db a w₁.db b (k a w₁).1.db (d a refl) (d' b e),
        )

-- A call that fails changes nothing.
abbrev pub Writes : {E A : Type 0} → (Db → Db → Type 0) → M E A → Type 0
Writes {E} {A} P m =
    (w : World)
    → SameQueue w (m w).1
      × (((m w).1.db ≡ w.db) ⊎ (((a : A) × ((m w).0 ≡ ok a)) × P w.db (m w).1.db))

pub in_tx-Writes :
    {A : Type 0} (P : Db → Db → Type 0) (body : M StoreError A)
    → Does (λ x a y. P x y) body
    → Writes P (in_tx body)
unfolding in_tx
in_tx-Writes {A} P body d w = elim (Bool-cases (next_fails w.faults)) [
  | inl t ↦ rw t (record { queue = refl; next_handle = refl }, inl refl)
  | inr t ↦ rw t (go (body (tried w)) (d (tried w)))
]
  where
    go :
        (p : Result StoreError A × World)
        → SameQueue (tried w) p.1 × ((a : A) → p.0 ≡ ok a → P w.db p.1.db)
        → let c = close_tx w.db p in
          SameQueue w c.1 × ((c.1.db ≡ w.db) ⊎ (((a : A) × (c.0 ≡ ok a)) × P w.db c.1.db))
    go (err x, w₁) (q, e) = (record { queue = q.queue; next_handle = q.next_handle }, inl refl)
    go (ok a, w₁) (q, e) = elim (Bool-cases (next_fails w₁.faults)) [
      | inl t ↦ rw t (record { queue = q.queue; next_handle = q.next_handle }, inl refl)
      | inr t ↦
          rw t (record { queue = q.queue; next_handle = q.next_handle }, inr ((a, refl), e a refl))
    ]

pub statement-Writes :
    {A : Type 0} (P : Db → Db → Type 0) (f : Db → Result StoreError (A × Db))
    → ((db : Db) (a : A) (db' : Db) → f db ≡ ok (a, db') → P db db')
    → Writes P (statement f)
unfolding statement
statement-Writes {A} P f h w = elim (Bool-cases (next_fails w.faults)) [
  | inl t ↦ rw t (record { queue = refl; next_handle = refl }, inl refl)
  | inr t ↦ rw t (go (f w.db) refl)
]
  where
    go :
        (r : Result StoreError (A × Db))
        → f w.db ≡ r
        → let p = finish (tried w) r in
          SameQueue w p.1 × ((p.1.db ≡ w.db) ⊎ (((a : A) × (p.0 ≡ ok a)) × P w.db p.1.db))
    go (err x) e = (record { queue = refl; next_handle = refl }, inl refl)
    go (ok (a, db)) e =
        (record { queue = refl; next_handle = refl }, inr ((a, refl), h w.db a db e))

-- Whatever the call returns, the databases before and after are related.
abbrev pub Ensures : {E A : Type 0} → (Db → Db → Type 0) → M E A → Type 0
Ensures P m = (w : World) → SameQueue w (m w).1 × P w.db (m w).1.db

abbrev pub IsQuiet : {E A : Type 0} → M E A → Type 0
IsQuiet m = Ensures (λ x y. y ≡ x) m

pub Writes-Ensures :
    {E A : Type 0} (P : Db → Db → Type 0) (m : M E A)
    → ((x : Db) → P x x)
    → Writes P m
    → Ensures P m
Writes-Ensures P m same h w =
    let (q, o) = h w in (q, elim o [ inl e ↦ subst (P w.db) (sym e) (same w.db) | inr (_, p) ↦ p ])

pub or_else-Ensures :
    {E F A : Type 0} (P : Db → Db → Type 0) (m : M E A) (f : E → F)
    → Ensures P m
    → Ensures P (or_else m f)
or_else-Ensures {E} {F} {A} P m f h w = go (m w) (h w)
  where
    go :
        (p : Result E A × World)
        → SameQueue w p.1 × P w.db p.1.db
        → SameQueue w (recast f p).1 × P w.db (recast f p).1.db
    go (ok a, w₁) e = e
    go (err x, w₁) e = e

pub quiet-Ensures :
    {E A B : Type 0} (P : Db → Db → Type 0) (m : M E A) (k : A → M E B)
    → ((x : Db) → P x x)
    → IsQuiet m
    → ((a : A) → Ensures P (k a))
    → Ensures P (m >>= k)
quiet-Ensures {E} {A} {B} P m k same quiet h w = go (m w) (quiet w)
  where
    go :
        (p : Result E A × World)
        → SameQueue w p.1 × (p.1.db ≡ w.db)
        → SameQueue w (continue p k).1 × P w.db (continue p k).1.db
    go (err x, w₁) (q, e) = (q, subst (P w.db) (sym e) (same w.db))
    go (ok a, w₁) (q, e) =
        let (q', d) = h a w₁ in
        (SameQueue-trans w w₁ (k a w₁).1 q q', subst (λ x. P x (k a w₁).1.db) e d)

pub Ensures-quiet :
    {E A B : Type 0} (P : Db → Db → Type 0) (m : M E A) (k : A → M E B)
    → Ensures P m
    → ((a : A) → IsQuiet (k a))
    → Ensures P (m >>= k)
Ensures-quiet {E} {A} {B} P m k h quiet w = go (m w) (h w)
  where
    go :
        (p : Result E A × World)
        → SameQueue w p.1 × P w.db p.1.db
        → SameQueue w (continue p k).1 × P w.db (continue p k).1.db
    go (err x, w₁) e = e
    go (ok a, w₁) (q, e) =
        let (q', d) = quiet a w₁ in (SameQueue-trans w w₁ (k a w₁).1 q q', subst (P w.db) (sym d) e)

-- A call that returns, or fails, without a call of the database.
pub still-Does :
    {E A : Type 0} (P : Db → A → Db → Type 0) (r : Result E A)
    → ((x : Db) (a : A) → r ≡ ok a → P x a x)
    → Does P (λ (w : World). (r, w))
still-Does P r h w = (record { queue = refl; next_handle = refl }, λ a e. h w.db a e)

-- A transaction that returns did what its body does.
pub in_tx-Does :
    {A : Type 0} (P : Db → A → Db → Type 0) (body : M StoreError A)
    → Does P body
    → Does P (in_tx body)
unfolding in_tx
in_tx-Does {A} P body d w = elim (Bool-cases (next_fails w.faults)) [
  | inl t ↦ rw t (record { queue = refl; next_handle = refl }, λ a e. cc)
  | inr t ↦ rw t (go (body (tried w)) (d (tried w)))
]
  where
    go :
        (p : Result StoreError A × World)
        → SameQueue (tried w) p.1 × ((a : A) → p.0 ≡ ok a → P w.db a p.1.db)
        → let c = close_tx w.db p in SameQueue w c.1 × ((a : A) → c.0 ≡ ok a → P w.db a c.1.db)
    go (err x, w₁) (q, e) = (record { queue = q.queue; next_handle = q.next_handle }, λ a h. cc)
    go (ok b, w₁) (q, e) = elim (Bool-cases (next_fails w₁.faults)) [
      | inl t ↦ rw t (record { queue = q.queue; next_handle = q.next_handle }, λ a h. cc)
      | inr t ↦ rw t (record { queue = q.queue; next_handle = q.next_handle }, λ a h. e a h)
    ]
