-- ===== src/Store/Effects.antt =====
-- internal/db/store.go and internal/queue/sqs.go: calls that may fail, and the transaction. A call
-- takes the world and returns a value or an error, with the world after it.
pub mod Atomic
pub mod Calls
use orchex.Prelude.{
  ℕ, suc, Bool, true, false, List, [], ◌∷◌, ◌++◌, Option, none, some, ◌==◌, if◌then◌else◌,
}
use orchex.Result.{Result, ok, err}
use orchex.Publish.Graph.{GraphError}
use orchex.Store.Tables.{Db, World, Envelope, NodeJobMessage}

-- `no_rows` is `pgx.ErrNoRows`, `unavailable` any failure of the database or of the queue, the next
-- two are the errors of internal/handler/run/start.go, and the others those of
-- internal/handler/workflow: `bad_rows` of save.go and the rest of publish.go.
pub data StoreError : Type 0 where
  no_rows unavailable missing_start_node published_without_version : StoreError
  bad_rows bad_types missing_live_pointers : StoreError
  invalid_graph : GraphError → StoreError

abbrev pub M : Type 0 → Type 0 → Type 0
M E A = World → Result E A × World

-- The rest of a function after a call.
abbrev pub continue : {E A B : Type 0} → Result E A × World → (A → M E B) → Result E B × World
continue (ok a, w) k = k a w
continue (err e, w) k = (err e, w)

infixl 5 ◌>>=◌ ◌>>◌
abbrev pub ◌>>=◌ : {E A B : Type 0} → M E A → (A → M E B) → M E B
◌>>=◌ m k w = continue (m w) k

abbrev pub ◌>>◌ : {E B : Type 0} → M E (Unit {0}) → M E B → M E B
m >> k = m >>= λ _. k

abbrev pub return : {E A : Type 0} → A → M E A
return a w = (ok a, w)

abbrev pub throw : {E A : Type 0} → E → M E A
throw e w = (err e, w)

-- The caller turns the error into its own.
abbrev pub recast : {E F A : Type 0} → (E → F) → Result E A × World → Result F A × World
recast f (ok a, w) = (ok a, w)
recast f (err e, w) = (err (f e), w)

abbrev pub or_else : {E F A : Type 0} → M E A → (E → F) → M F A
or_else m f w = recast f (m w)

-- Whether the next call fails, and the world after it was tried.
abbrev pub next_fails : List Bool → Bool
next_fails [] = false
next_fails (b ∷ bs) = b

abbrev pub later : List Bool → List Bool
later [] = []
later (b ∷ bs) = bs

abbrev pub tried : World → World
tried w = record w { faults = later w.faults }

-- A statement: it fails for a reason of its own, or returns a value and the database after it.
abbrev pub finish : {A : Type 0} → World → Result StoreError (A × Db) → Result StoreError A × World
finish w (ok (a, db)) = (ok a, record w { db = db })
finish w (err e) = (err e, w)

unfoldable pub statement : {A : Type 0} → (Db → Result StoreError (A × Db)) → M StoreError A
statement f w =
    if next_fails w.faults then (err unavailable, tried w) else finish (tried w) (f w.db)

-- The end of `InTx`: a rollback after an error, and else a commit, which may fail too.
unfoldable pub close_tx :
    {A : Type 0} → Db → Result StoreError A × World → Result StoreError A × World
close_tx before (err e, w) = (err e, record w { db = before })
close_tx before (ok a, w) =
    if next_fails w.faults
    then (err unavailable, record (tried w) { db = before })
    else (ok a, tried w)

-- `InTx`
unfoldable pub in_tx : {A : Type 0} → M StoreError A → M StoreError A
unfolding close_tx
in_tx body w =
    if next_fails w.faults then (err unavailable, tried w) else close_tx w.db (body (tried w))

-- `SQS.Send`
unfoldable pub send : NodeJobMessage → M StoreError (Unit {0})
send m w = if next_fails w.faults then (err unavailable, tried w) else (
  ok tt,
  record (tried w) {
    queue = w.queue ++ (record { handle = w.next_handle; body = m; sent = w.db.now } ∷ []);
    next_handle = suc w.next_handle;
  },
)

-- `SQS.Delete`
unfoldable pub without : ℕ → List Envelope → List Envelope
without h [] = []
without h (e ∷ es) = let rest = without h es in if e.handle == h then rest else e ∷ rest

unfoldable pub delete_message : ℕ → M StoreError (Unit {0})
unfolding without
delete_message h w =
    if next_fails w.faults
    then (err unavailable, tried w)
    else (ok tt, record (tried w) { queue = without h w.queue })
