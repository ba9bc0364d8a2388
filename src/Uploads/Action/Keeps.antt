-- ===== src/Uploads/Action/Keeps.antt =====
-- What actions on the upload store keep, one rule for each way to build an action.
use timich_agent.Base.{
  ◌≡◌, refl, Bool, true, false, Option, Option-cases, none, some, List, [], ◌∷◌, if◌then◌else◌, inl,
  inr, Result, ok, err, arith,
}
use timich_agent.Uploads.Rows.{Db, UploadError}
use timich_agent.Uploads.Action.{
  Conn, Action, pure, raise, lift, some_or, raise_if, ◌>>◌, ran, run_statement, statement, exec,
  query, continue, ◌>>=◌, committed, finish, transaction,
}

-- `m` keeps `P`, whether it returns or fails.
pub record Keeps {A : Type 0} (P : Db → Type 0) (m : Action A) : Type 0 where
  pub at : (c : Conn) → P c.db → P (m c).0.db

module _ {A : Type 0} {P : Db → Type 0} where
  pub Keeps-pure : (a : A) → Keeps P (pure a)
  Keeps-pure a = record { at = λ c h. h }

  pub Keeps-raise : (e : UploadError) → Keeps P (raise {A = A} e)
  Keeps-raise e = record { at = λ c h. h }

  pub Keeps-statement :
      (f : Db → Option (Db × A))
      → ((db db' : Db) (a : A) → f db ≡ some (db', a) → P db → P db')
      → Keeps P (statement f)
  unfolding statement
  Keeps-statement f k = record { at = λ c h. go c.outcomes c.db h }
    where
      runs : (rest : List Bool) (db : Db) → P db → P (ran rest db (f db)).0.db
      runs rest db h = elim (Option-cases (f db)) [
        | inl e ↦ rw e h
        | inr ((db', a), e) ↦ rw e (k db db' a e h)
      ]

      go : (o : List Bool) (db : Db) → P db → P (run_statement f o db).0.db
      go [] db h = runs [] db h
      go (true ∷ rest) db h = runs rest db h
      go (false ∷ rest) db h = h

  pub Keeps-exec : (f : Db → Db × A) → ((db : Db) → P db → P (f db).0) → Keeps P (exec f)
  Keeps-exec f k = Keeps-statement (λ db. some (f db)) (λ db db' a e h. ground (arith, e, k db h))

  pub Keeps-query : (f : Db → A) → Keeps P (query f)
  Keeps-query f = Keeps-statement (λ db. some (db, f db)) (λ db db' a e h. ground (arith, e, h))

  pub Keeps-some_or : (e : UploadError) (o : Option A) → Keeps P (some_or e o)
  Keeps-some_or e none = Keeps-raise e
  Keeps-some_or e (some a) = Keeps-pure a

  pub Keeps-lift : (r : Result UploadError A) → Keeps P (lift r)
  Keeps-lift (ok a) = Keeps-pure a
  Keeps-lift (err e) = Keeps-raise e

  pub Keeps-if : (b : Bool) (m n : Action A) → Keeps P m → Keeps P n → Keeps P (if b then m else n)
  Keeps-if true m n km kn = km
  Keeps-if false m n km kn = kn

module _ {A B : Type 0} {P : Db → Type 0} where
  pub Keeps-bind :
      (m : Action A) (f : A → Action B) → Keeps P m → ((a : A) → Keeps P (f a)) → Keeps P (m >>= f)
  Keeps-bind m f km kf = record { at = at }
    where
      go : (r : Conn × Result UploadError A) → P r.0.db → P (continue f r).0.db
      go (c', ok a) h = (kf a).at c' h
      go (c', err e) h = h

      at : (c : Conn) → P c.db → P ((m >>= f) c).0.db
      at c h = go (m c) (km.at c h)

  -- The rest of the block may use what was read.
  pub Keeps-bind-query :
      (g : Db → A) (f : A → Action B)
      → ((c : Conn) (db : Db) → db ≡ c.db → P db → P (f (g db) c).0.db)
      → Keeps P (query g >>= f)
  unfolding statement
  Keeps-bind-query g f k = record { at = λ c h. go c.outcomes c.db h }
    where
      go :
          (o : List Bool) (db : Db)
          → P db
          → P (continue f (run_statement (λ d. some (d, g d)) o db)).0.db
      go [] db h = k (record { outcomes = []; db = db }) db refl h
      go (true ∷ rest) db h = k (record { outcomes = rest; db = db }) db refl h
      go (false ∷ rest) db h = h

  -- The rest of the block may use that the input was in order.
  pub Keeps-bind-lift :
      (r : Result UploadError A) (f : A → Action B)
      → ((a : A) → r ≡ ok a → Keeps P (f a))
      → Keeps P (lift r >>= f)
  Keeps-bind-lift (ok a) f kf = kf a refl
  Keeps-bind-lift (err e) f kf = Keeps-raise e

module _ {A : Type 0} {P : Db → Type 0} where
  -- The rest of the block may use that the test failed.
  pub Keeps-bind-raise_if :
      (b : Bool) (e : UploadError) (m : Action A)
      → (b ≡ false → Keeps P m)
      → Keeps P (raise_if b e >> m)
  Keeps-bind-raise_if true e m k = record { at = λ c h. h }
  Keeps-bind-raise_if false e m k = k refl

module _ {A : Type 0} (P : Db → Type 0) where
  -- A transaction that ends rolled back leaves the database that it began with.
  pub finish-keeps :
      (before : Db) (r : Conn × Result UploadError A)
      → P before
      → P r.0.db
      → P (finish before r).0.db
  unfolding finish
  finish-keeps before (c, err e) h k = h
  finish-keeps before (c, ok a) h k =
      go (query (λ _. tt) c) ((Keeps-query {P = P} (λ _. tt)).at c k)
    where
      go : (r : Conn × Result UploadError (Unit {0})) → P r.0.db → P (committed before a r).0.db
      go (c', ok _) q = q
      go (c', err e) q = h

  pub Keeps-transaction : (m : Action A) → Keeps P m → Keeps P (transaction m)
  unfolding transaction
  Keeps-transaction m km =
      Keeps-bind (query (λ _. tt)) (λ _ c. finish c.db (m c)) (Keeps-query (λ _. tt))
        λ _. record { at = λ c h. finish-keeps c.db (m c) h (km.at c h) }

pub ruleset keeps_rules = (
  Keeps-pure, Keeps-raise, Keeps-query, Keeps-some_or, Keeps-lift, Keeps-if, Keeps-bind,
  Keeps-transaction,
)
