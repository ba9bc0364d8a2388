-- ===== src/Uploads/Action.antt =====
-- Calls of database/sql, which may fail. An action has the database and the outcomes of the statements to
-- come, `true` for success; when they are used up, every further statement succeeds.
pub mod Keeps
pub mod Atomic
use timich_agent.Base.{
  Bool, true, false, Option, none, some, List, [], ◌∷◌, if◌then◌else◌, Result, ok, err,
}
use timich_agent.Uploads.Rows.{Db, UploadError, database_failed}

pub record Conn : Type 0 where
  pub outcomes : List Bool
  pub db : Db

abbrev pub Action : Type 0 → Type 0
Action A = Conn → Conn × Result UploadError A

module _ {A : Type 0} where
  abbrev pub pure : A → Action A
  pure a c = (c, ok a)

  abbrev pub raise : UploadError → Action A
  raise e c = (c, err e)

  -- What a statement does once it runs: `none` for a violated constraint.
  abbrev pub ran : List Bool → Db → Option (Db × A) → Conn × Result UploadError A
  ran rest db none = (record { outcomes = rest; db = db }, err database_failed)
  ran rest db (some (db', a)) = (record { outcomes = rest; db = db' }, ok a)

  abbrev pub run_statement : (Db → Option (Db × A)) → List Bool → Db → Conn × Result UploadError A
  run_statement f [] db = ran [] db (f db)
  run_statement f (true ∷ rest) db = ran rest db (f db)
  run_statement f (false ∷ rest) db = (record { outcomes = rest; db = db }, err database_failed)

  -- One statement.
  unfoldable pub statement : (Db → Option (Db × A)) → Action A
  statement f c = run_statement f c.outcomes c.db

  abbrev pub exec : (Db → Db × A) → Action A
  exec f = statement λ db. some (f db)

  abbrev pub query : (Db → A) → Action A
  query f = statement λ db. some (db, f db)

abbrev pub lift : {A : Type 0} → Result UploadError A → Action A
lift (ok a) = pure a
lift (err e) = raise e

-- A row that must be there.
abbrev pub some_or : {A : Type 0} → UploadError → Option A → Action A
some_or e none = raise e
some_or e (some a) = pure a

abbrev pub raise_if : Bool → UploadError → Action (Unit {0})
raise_if c e = if c then raise e else pure tt

abbrev pub continue :
    {A B : Type 0} → (A → Action B) → Conn × Result UploadError A → Conn × Result UploadError B
continue f (c, ok a) = f a c
continue f (c, err e) = (c, err e)

infixl 5 ◌>>=◌ ◌>>◌
abbrev pub ◌>>=◌ : {A B : Type 0} → Action A → (A → Action B) → Action B
◌>>=◌ m f c = continue f (m c)

abbrev pub ◌>>◌ : {A B : Type 0} → Action A → Action B → Action B
m >> k = m >>= λ _. k

-- The end of a transaction that began at `before`: `tx.Commit()`, or the deferred `tx.Rollback()`.
abbrev pub committed :
    {A : Type 0} → Db → A → Conn × Result UploadError (Unit {0}) → Conn × Result UploadError A
committed before a (c, ok _) = (c, ok a)
committed before a (c, err e) = (record c { db = before }, err e)

unfoldable pub finish :
    {A : Type 0} → Db → Conn × Result UploadError A → Conn × Result UploadError A
finish before (c, err e) = (record c { db = before }, err e)
finish before (c, ok a) = committed before a (query (λ _. tt) c)

-- `s.db.Begin()`, the statements of `m`, and the end.
unfoldable pub transaction : {A : Type 0} → Action A → Action A
unfolding finish
transaction m = do query (λ _. tt); λ c. finish c.db (m c)
