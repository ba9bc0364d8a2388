-- ===== src/Uploads/Progress.antt =====
-- internal/store/upload_store.go: a session's offset never goes back, so a part is stored once.
use timich_agent.Base.{
  ℕ, ◌≤◌, ◌≡◌, refl, subst, ◌∙◌, Bool, true, false, not, ◌&&◌, List, [], ◌∷◌, is_some, leb, Text,
  text_eq, text_eq_sound, text_eq_complete, arith, ok, trim_space,
}
use timich_agent.Uploads.Rows.{UploadSession}
use timich_agent.Uploads.Action.{Conn}
use timich_agent.Uploads.Statements.{first, count_where, has_session_id}
use timich_agent.Uploads.Inputs.{UploadSessionInput, normalize_session_input}
use timich_agent.Uploads.Sessions.{new_session, at_offset, advanced}
use timich_agent.Uploads.Tables.{
  count_where-update, count_where-delete, count_where-add, count_where-snoc,
  count_where-update_none,
}
use timich_agent.Uploads.History.{Call, creates, step, run}
use timich_agent.Uploads.Effects.Sessions.{Updates, Inserts, OnSessions, Creates, step-OnSessions}

-- No two sessions have a name in common.
abbrev pub OneEach : List UploadSession → Type 0
OneEach ss = (id : Text) → count_where (has_session_id id) ss ≤ 1

-- The session with the name is not past the offset.
abbrev pub behind : Text → ℕ → UploadSession → Bool
behind id n s = has_session_id id s && leb s.next_offset n

abbrev pub IsPast : Text → ℕ → List UploadSession → Type 0
IsPast id n ss = count_where (behind id n) ss ≡ 0

same_name :
    (id : Text) (f : UploadSession → UploadSession)
    → ((s : UploadSession) → (f s).upload_id ≡ s.upload_id)
    → (s : UploadSession) → has_session_id id (f s) ≡ has_session_id id s
same_name id f k s = rw (k s) refl

OneEach-Updates : Updates OneEach
OneEach-Updates = record {
  progress = λ id e n now ss up one id'.
      rw (count_where-update (has_session_id id') (at_offset id e) (advanced n now) (λ s. refl) ss)
        (one id');
  restated = λ p f ss fi fo one id'.
      rw (count_where-update (has_session_id id') p f (same_name id' f fi) ss) (one id');
  deleted = λ p ss one id'. ground (arith, count_where-delete (has_session_id id') p ss, one id');
}

OneEach-Inserts : (i : UploadSessionInput) → Inserts OneEach i
OneEach-Inserts i = record {
  inserted = λ ss new one id.
      count_where-add (has_session_id id) ss (new_session i)
        (λ e.
          subst (λ x. is_some (first (has_session_id x) ss) ≡ false)
            (text_eq_sound i.upload_id id e) new)
        (one id);
}

OneEach-Creates : (call : Call) → Creates OneEach call
OneEach-Creates (creates clock random input) = λ i e. OneEach-Inserts i
OneEach-Creates _ = tt

pub run-OneEach :
    (to_lower : Text → Text) (calls : List Call) (c : Conn)
    → OnSessions OneEach c.db
    → OnSessions OneEach (run to_lower calls c).db
unfolding run
run-OneEach l [] c one = one
run-OneEach l (call ∷ calls) c one =
    run-OneEach l calls (step l call c)
      (step-OnSessions OneEach OneEach-Updates l call (OneEach-Creates call) c one)

past_restated :
    (id : Text) (n : ℕ) (f : UploadSession → UploadSession)
    → ((s : UploadSession) → (f s).upload_id ≡ s.upload_id)
    → ((s : UploadSession) → (f s).next_offset ≡ s.next_offset)
    → (s : UploadSession) → behind id n (f s) ≡ behind id n s
past_restated id n f fi fo s = rw (fi s) (rw (fo s) refl)

IsPast-Updates : (id : Text) (n : ℕ) → Updates (IsPast id n)
IsPast-Updates id n = record {
  progress = λ id' e next now ss up past.
      count_where-update_none (behind id n) (at_offset id' e) (advanced next now)
        (λ s q hit. ground (arith, q, hit, up)) ss past;
  restated = λ p f ss fi fo past.
      count_where-update (behind id n) p f (past_restated id n f fi fo) ss ∙ past;
  deleted = λ p ss past. ground (arith, count_where-delete (behind id n) p ss, past);
}

-- The call does not start a session with the name.
abbrev pub starts_no : Text → Call → Bool
starts_no id (creates clock random input) = not (text_eq (trim_space input.upload_id) id)
starts_no id _ = true

abbrev pub start_no : Text → List Call → Bool
start_no id [] = true
start_no id (call ∷ calls) = starts_no id call && start_no id calls

session_name :
    (clock : ℕ) (input i : UploadSessionInput)
    → normalize_session_input clock input ≡ ok i
    → trim_space input.upload_id ≡ i.upload_id
unfolding normalize_session_input
session_name clock input i e = ground (arith, e)

IsPast-Creates :
    (id : Text) (n : ℕ) (call : Call) → starts_no id call ≡ true → Creates (IsPast id n) call
IsPast-Creates id n (creates clock random input) other = λ i e. record {
  inserted = λ ss new past. ground (
    arith,
    past,
    other,
    count_where-snoc (behind id n) ss (new_session i),
    session_name clock input i e,
    text_eq_complete (trim_space input.upload_id) id,
  );
}
IsPast-Creates id n _ other = tt

-- A session that is past an offset stays past it, while none is started anew under its name.
pub run-IsPast :
    (id : Text) (n : ℕ) (to_lower : Text → Text) (calls : List Call) (c : Conn)
    → start_no id calls ≡ true
    → OnSessions (IsPast id n) c.db
    → OnSessions (IsPast id n) (run to_lower calls c).db
unfolding run
run-IsPast id n l [] c other past = past
run-IsPast id n l (call ∷ calls) c other past =
    run-IsPast id n l calls (step l call c) (ground (arith, other)) (
      step-OnSessions (IsPast id n) (IsPast-Updates id n) l call
        (IsPast-Creates id n call (ground (arith, other))) c past)
