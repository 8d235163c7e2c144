-- ===== src/ConstantContact/Bounces/Runs/Loop.antt =====
-- The loop of a bounce check: which emails are asked about, and what becomes of the answers.
use hail_system.Prelude.{
  ℕ, ◌≡◌, refl, ap, String, Option, none, some, List, [], ◌∷◌, ◌++◌, map, arith,
}
use hail_system.Exec.{Result, ok, raised}
use hail_system.Email.Store.{EmailRow}
use hail_system.ConstantContact.Transport.{Fail, Request, Outside, Wire}
use hail_system.ConstantContact.Transport.Retries.{Ended, request-Ended}
use hail_system.ConstantContact.Bounces.{
  Bounce, BouncePage, worst_code, Book, record_bounce, check_one, Tally, add_tally, activity_of,
  bounces_request, read_answer, fetch_bounces, after_fetch, check_emails,
}
use hail_system.ConstantContact.Bounces.Runs.Progress.{
  Entry, IsDone, Little, no_entry-Fates, record_bounce-Little, Little-IsDone,
}

-- The entries of a check are the answers to its requests, one after the other.
abbrev pub Asked :
    {W : Type 0}
    → Outside W (Unit {0}) BouncePage
    → Wire W BouncePage
    → List Entry
    → Wire W BouncePage
    → Type 0
Asked out s [] s' = s' ≡ s
Asked {W} out s (x ∷ trace) s' =
    (mid : Wire W BouncePage) × (fetch_bounces out (activity_of x.email) s
      ≡ some (ok x.records, mid))
    × (x.now ≡ out.now mid.world)
    × Asked out mid trace s'

abbrev pub email_in : Entry → EmailRow
email_in x = x.email

-- Every one of the emails was asked about, and what was answered is recorded.
abbrev pub AllDone :
    {W : Type 0}
    → Outside W (Unit {0}) BouncePage
    → (String → String)
    → List EmailRow
    → Book
    → Wire W BouncePage
    → Tally
    → Book
    → Tally
    → Wire W BouncePage
    → Type 0
AllDone out norm emails old s t book u s' =
    (trace : List Entry) × (map email_in trace ≡ emails)
    × Asked out s trace s'
    × IsDone norm old book t trace u

-- The same of the emails before one whose request raised `e`.
abbrev pub SomeDone :
    {W : Type 0}
    → Outside W (Unit {0}) BouncePage
    → (String → String)
    → List EmailRow
    → Book
    → Wire W BouncePage
    → Tally
    → Fail
    → Book
    → Tally
    → Wire W BouncePage
    → Type 0
SomeDone {W} out norm emails old s t e book u s' =
    (trace : List Entry) × (email : EmailRow) × (rest : List EmailRow) × (mid : Wire W BouncePage)
    × (map email_in trace ++ (email ∷ rest) ≡ emails)
    × Asked out s trace mid
    × (fetch_bounces out (activity_of email) mid ≡ some (raised e, s'))
    × IsDone norm old book t trace u

module _ {W : Type 0} (out : Outside W (Unit {0}) BouncePage) (norm : String → String) where
  -- What stands after the loop over the emails.
  abbrev pub Checked :
      List EmailRow
      → Book
      → Wire W BouncePage
      → Tally
      → Option (Result Fail (Unit {0}) × Tally × Book × Wire W BouncePage)
      → Type 0
  Checked emails old s t none = ⊥
  Checked emails old s t (some (ok _, u, book, s')) = AllDone out norm emails old s t book u s'
  Checked emails old s t (some (raised e, u, book, s')) =
      SomeDone out norm emails old s t e book u s'

  -- An answer of Constant Contact, or an error.
  IsAnswer : Option (Result Fail (List Bounce) × Wire W BouncePage) → Type 0
  IsAnswer none = ⊥
  IsAnswer (some r) = Unit

  read_answer-IsAnswer :
      (req : Request (Unit {0})) (s : Wire W BouncePage)
      (r : Option (Result Fail (ℕ × Option BouncePage) × Wire W BouncePage))
      → Ended req s r
      → IsAnswer (read_answer out r)
  unfolding read_answer IsAnswer
  read_answer-IsAnswer req s none h = h
  read_answer-IsAnswer req s (some (raised e, s')) h = tt
  read_answer-IsAnswer req s (some (ok (status, doc), s')) h = tt

  fetch_bounces-IsAnswer :
      (activity : String) (s : Wire W BouncePage) → IsAnswer (fetch_bounces out activity s)
  unfolding fetch_bounces
  fetch_bounces-IsAnswer activity s =
      read_answer-IsAnswer (bounces_request activity) s _
        (request-Ended out (bounces_request activity) s)

  -- An answer in front of the rest of the loop.
  ahead-Checked :
      (x : Entry) (emails : List EmailRow) (old : Book) (s mid : Wire W BouncePage) (t : Tally)
      (r : (ℕ × ℕ) × Book) (o : Option (Result Fail (Unit {0}) × Tally × Book × Wire W BouncePage))
      → fetch_bounces out (activity_of x.email) s ≡ some (ok x.records, mid)
      → x.now ≡ out.now mid.world
      → Little norm x old r
      → Checked emails r.1 mid (add_tally r.0 t) o
      → Checked (x.email ∷ emails) old s t o
  ahead-Checked x emails old s mid t r none e n l h = h
  ahead-Checked x emails old s mid t r (some (ok tt, u, book, s')) e n l (trace, m, a, d) = (
    x ∷ trace,
    ap (λ (es : List EmailRow). x.email ∷ es) m,
    (mid, e, n, a),
    Little-IsDone norm x old book t u trace r l d,
  )
  ahead-Checked x emails old s mid t r (some (raised exc, u, book, s')) e n l
        (trace, email, rest, last, m, a, f, d) =
      (
        x ∷ trace,
        email,
        rest,
        last,
        ap (λ (es : List EmailRow). x.email ∷ es) m,
        (mid, e, n, a),
        f,
        Little-IsDone norm x old book t u trace r l d,
      )

  no_entry-IsDone : (book : Book) (t : Tally) → IsDone norm book book t [] t
  no_entry-IsDone book t = record {
    emails = refl;
    log = no_entry-Fates book.log;
    dnc = ([], refl, omega arith, tt);
    on_list = tt;
    checked = omega arith;
    bounced = omega arith;
  }

  after_fetch-Checked :
      (system_id : ℕ)
      (go : Tally
        → Book
        → Wire W BouncePage
        → Option (Result Fail (Unit {0}) × Tally × Book × Wire W BouncePage))
      (email : EmailRow) (emails : List EmailRow) (old : Book) (t : Tally) (s : Wire W BouncePage)
      (r : Option (Result Fail (List Bounce) × Wire W BouncePage))
      → fetch_bounces out (activity_of email) s ≡ r
      → IsAnswer r
      → ((u : Tally) (b : Book) (s' : Wire W BouncePage) → Checked emails b s' u (go u b s'))
      → Checked (email ∷ emails) old s t (after_fetch out norm system_id go email t old r)
  unfolding after_fetch check_one IsAnswer
  after_fetch-Checked system_id go email emails old t s none e a ih = a
  after_fetch-Checked system_id go email emails old t s (some (raised exc, s')) e a ih =
      ([], email, emails, s, refl, refl, e, no_entry-IsDone old t)
  after_fetch-Checked system_id go email emails old t s (some (ok records, s')) e a ih =
      let x : Entry = record { email = email; now = out.now s'.world; records = records } in
      let r : (ℕ × ℕ) × Book =
        record_bounce norm system_id (out.now s'.world) email
          (worst_code records email.recipient_email) old in
      ahead-Checked x emails old s s' t r (go (add_tally r.0 t) r.1 s') e refl
        (record_bounce-Little norm system_id x _ old refl) (ih (add_tally r.0 t) r.1 s')

  pub check_emails-Checked :
      (system_id : ℕ) (emails : List EmailRow) (old : Book) (t : Tally) (s : Wire W BouncePage)
      → Checked emails old s t (check_emails out norm system_id emails t old s)
  unfolding check_emails
  check_emails-Checked system_id [] old t s = ([], refl, refl, no_entry-IsDone old t)
  check_emails-Checked system_id (email ∷ emails) old t s =
      after_fetch-Checked system_id _ email emails old t s _ refl
        (fetch_bounces-IsAnswer (activity_of email) s)
        (λ u b s'. check_emails-Checked system_id emails b u s')
