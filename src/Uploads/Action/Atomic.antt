-- ===== src/Uploads/Action/Atomic.antt =====
-- A transaction that may fail at any statement does all of its work or none of it.
use timich_agent.Base.{
  ◌≡◌, refl, sym, ap, subst, ◌∙◌, Bool, true, false, Option, none, some, List, [], ◌∷◌, ◌⊎◌, inl,
  inr, Result, ok, err, Result-cases, arith,
}
use timich_agent.Uploads.Rows.{Db, UploadError}
use timich_agent.Uploads.Action.{
  lift, Conn, Action, pure, raise, ran, run_statement, statement, exec, query, continue, ◌>>=◌,
  committed, finish, transaction,
}
use timich_agent.Uploads.Action.Keeps.{Keeps, Keeps-query}

-- The database with no failure to come.
abbrev pub sound : Db → Conn
sound db = record { outcomes = []; db = db }

-- An action that returns in spite of possible failures does what it does without any.
pub record Uniform {A : Type 0} (m : Action A) : Type 0 where
  pub at : (c c' : Conn) (a : A) → m c ≡ (c', ok a) → m (sound c.db) ≡ (sound c'.db, ok a)

module _ {A : Type 0} where
  pub Uniform-pure : (a : A) → Uniform (pure a)
  Uniform-pure a = record { at = λ c c' b e. ground (arith, e) }

  pub Uniform-raise : (e : UploadError) → Uniform (raise {A = A} e)
  Uniform-raise e = record { at = λ c c' b q. ground (arith, q) }

  ran-sound :
      (rest : List Bool) (db : Db) (f : Option (Db × A)) (c' : Conn) (a : A)
      → ran rest db f ≡ (c', ok a)
      → ran [] db f ≡ (sound c'.db, ok a)
  ran-sound rest db none c' a e = ground (arith, e)
  ran-sound rest db (some (db', b)) c' a e = ground (arith, e)

  pub Uniform-statement : (f : Db → Option (Db × A)) → Uniform (statement f)
  unfolding statement
  Uniform-statement f = record { at = λ c c' a e. go c.outcomes c.db c' a e }
    where
      go :
          (o : List Bool) (db : Db) (c' : Conn) (a : A)
          → run_statement f o db ≡ (c', ok a)
          → ran [] db (f db) ≡ (sound c'.db, ok a)
      go [] db c' a e = ran-sound [] db (f db) c' a e
      go (true ∷ rest) db c' a e = ran-sound rest db (f db) c' a e
      go (false ∷ rest) db c' a e = ground (arith, e)

  pub Uniform-exec : (f : Db → Db × A) → Uniform (exec f)
  Uniform-exec f = Uniform-statement (λ db. some (f db))

  pub Uniform-query : (f : Db → A) → Uniform (query f)
  Uniform-query f = Uniform-statement (λ db. some (db, f db))

module _ {A B : Type 0} where
  pub Uniform-bind :
      (m : Action A) (f : A → Action B) → Uniform m → ((a : A) → Uniform (f a)) → Uniform (m >>= f)
  Uniform-bind m f um uf = record { at = λ c c' b e. go c c' b (m c) refl e }
    where
      go :
          (c c' : Conn) (b : B) (r : Conn × Result UploadError A)
          → m c ≡ r
          → continue f r ≡ (c', ok b)
          → (m >>= f) (sound c.db) ≡ (sound c'.db, ok b)
      go c c' b (c1, ok a) e q = ap (continue f) (um.at c c1 a e) ∙ (uf a).at c1 c' b q
      go c c' b (c1, err x) e q = ground (arith, q)

-- An action that fails has changed nothing.
abbrev pub Restored : {A : Type 0} → Db → Conn × Result UploadError A → Type 0
Restored before (c, ok a) = Unit
Restored before (c, err e) = c.db ≡ before

module _ {A : Type 0} where
  begin-Restored :
      (c : Conn) (r : Conn × Result UploadError (Unit {0})) (f : Unit {0} → Action A)
      → r.0.db ≡ c.db
      → ((c1 : Conn) → c1.db ≡ c.db → Restored c.db (f tt c1))
      → Restored c.db (continue f r)
  begin-Restored c (c1, ok tt) f same k = k c1 same
  begin-Restored c (c1, err e) f same k = same

  finish-Restored :
      (before : Db) (r : Conn × Result UploadError A) → Restored before (finish before r)
  unfolding finish
  finish-Restored before (c, err e) = refl
  finish-Restored before (c, ok a) = go (query (λ _. tt) c)
    where
      go : (r : Conn × Result UploadError (Unit {0})) → Restored before (committed before a r)
      go (c', ok _) = tt
      go (c', err e) = refl

  pub transaction-Restored : (m : Action A) (c : Conn) → Restored c.db (transaction m c)
  unfolding transaction
  transaction-Restored m c =
      begin-Restored c (query (λ _. tt) c) (λ _ c1. finish c1.db (m c1))
        ((Keeps-query {P = λ db. db ≡ c.db} (λ _. tt)).at c refl)
        (λ c1 same.
          subst (λ db. Restored db (finish c1.db (m c1))) same (finish-Restored c1.db (m c1)))

  finish-Uniform :
      (m : Action A)
      → Uniform m
      → (c c' : Conn) (a : A) → finish c.db (m c) ≡ (c', ok a)
      → finish c.db (m (sound c.db)) ≡ (sound c'.db, ok a)
  unfolding finish statement
  finish-Uniform m um c c' a e = go (m c) refl e
    where
      commits :
          (c1 : Conn) (b : A) (r : Conn × Result UploadError (Unit {0}))
          → r.0.db ≡ c1.db
          → committed c.db b r ≡ (c', ok a)
          → (b ≡ a) × (c1.db ≡ c'.db)
      commits c1 b (c2, ok _) same q = ground (arith, q)
      commits c1 b (c2, err x) same q = ground (arith, q)

      settle : (db : Db) (b : A) → finish c.db (sound db, ok b) ≡ (sound db, ok b)
      settle db b = refl

      go :
          (r : Conn × Result UploadError A)
          → m c ≡ r
          → finish c.db r ≡ (c', ok a)
          → finish c.db (m (sound c.db)) ≡ (sound c'.db, ok a)
      go (c1, err x) q w = ground (arith, w)
      go (c1, ok b) q w =
          let (same, db) =
            commits c1 b (query (λ _. tt) c1)
              ((Keeps-query {P = λ db. db ≡ c1.db} (λ _. tt)).at c1 refl) w in
          ap (finish c.db) (um.at c c1 b q)
          ∙ (settle c1.db b ∙ (ap (λ d. (sound d, ok b)) db ∙ ap (λ x. (sound c'.db, ok x)) same))

  pub Uniform-transaction : (m : Action A) → Uniform m → Uniform (transaction m)
  unfolding transaction
  Uniform-transaction m um =
      Uniform-bind (query (λ _. tt)) (λ _ c. finish c.db (m c)) (Uniform-query (λ _. tt))
        (λ _. record { at = finish-Uniform m um })

-- An action leaves the database as it was, or as it is left where nothing fails, which is so whenever the
-- action returns, and then with the same value.
pub record Atomic {A : Type 0} (m : Action A) (c : Conn) : Type 0 where
  pub all_or_nothing : ((m c).0.db ≡ c.db) ⊎ ((m c).0.db ≡ (m (sound c.db)).0.db)
  pub returns : (c' : Conn) (a : A) → m c ≡ (c', ok a) → m (sound c.db) ≡ (sound c'.db, ok a)

abbrev pub ReadOnly : {A : Type 0} → Action A → Type 0
ReadOnly m = (before : Db) → Keeps (λ db. db ≡ before) m

pub transaction-Atomic :
    {A : Type 0} (m : Action A) → Uniform m → (c : Conn) → Atomic (transaction m) c
transaction-Atomic m um c = record {
  all_or_nothing = go (transaction m c) refl (transaction-Restored m c);
  returns = (Uniform-transaction m um).at c;
}
  where
    go :
        (r : Conn × Result UploadError _)
        → transaction m c ≡ r
        → Restored c.db r
        → (r.0.db ≡ c.db) ⊎ (r.0.db ≡ (transaction m (sound c.db)).0.db)
    go (c1, err e) q same = inl same
    go (c1, ok a) q same = inr (sym (ap (λ r. r.0.db) ((Uniform-transaction m um).at c c1 a q)))

module _ {A B : Type 0} where
  -- A transaction, and reads after it.
  pub transaction-reads-Atomic :
      (m : Action A) (f : A → Action B)
      → Uniform m
      → ((a : A) → Uniform (f a))
      → ((a : A) → ReadOnly (f a))
      → (c : Conn) → Atomic (transaction m >>= f) c
  transaction-reads-Atomic m f um uf rf c = record {
    all_or_nothing = go (transaction m c) refl (transaction-Restored m c);
    returns = (Uniform-bind (transaction m) f (Uniform-transaction m um) uf).at c;
  }
    where
      go :
          (r : Conn × Result UploadError A)
          → transaction m c ≡ r
          → Restored c.db r
          → ((continue f r).0.db ≡ c.db)
            ⊎ ((continue f r).0.db ≡ (continue f (transaction m (sound c.db))).0.db)
      go (c1, err e) q same = inl same
      go (c1, ok a) q same =
          let ideal : transaction m (sound c.db) ≡ (sound c1.db, ok a) =
            (Uniform-transaction m um).at c c1 a q in
          inr (
            (rf a c1.db).at c1 refl
            ∙ sym (ap (λ r. (continue f r).0.db) ideal ∙ (rf a c1.db).at (sound c1.db) refl))

  -- An input that is checked first.
  pub lift-Atomic :
      (r : Result UploadError A) (f : A → Action B) (c : Conn)
      → ((a : A) → Atomic (f a) c)
      → Atomic (lift r >>= f) c
  lift-Atomic (ok a) f c k = k a
  lift-Atomic (err e) f c k = record {
    all_or_nothing = inl refl;
    returns = λ c' a q. ground (arith, q);
  }

-- An action fails, with the database as it was or as it is left where nothing fails; or it returns, and
-- then with the value and the database that it has where nothing fails.
abbrev pub IsWhole : {A : Type 0} → Action A → Conn → Type 0
IsWhole m c =
    ((e : UploadError) × ((m c).1 ≡ err e)
      × (((m c).0.db ≡ c.db) ⊎ ((m c).0.db ≡ (m (sound c.db)).0.db)))
    ⊎ (m (sound c.db) ≡ (sound (m c).0.db, (m c).1))

pub Atomic-IsWhole : {A : Type 0} (m : Action A) (c : Conn) → Atomic m c → IsWhole m c
Atomic-IsWhole m c atomic = elim (Result-cases (m c).1) [
  | inl (a, got) ↦ inr (
      atomic.returns (m c).0 a (ap (λ x. ((m c).0, x)) got)
      ∙ ap (λ x. (sound (m c).0.db, x)) (sym got))
  | inr (e, got) ↦ inl (e, got, atomic.all_or_nothing)
]
