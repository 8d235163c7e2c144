-- ===== src/ConstantContact/Bounces/Codes.antt =====
-- Which code is recorded for a recipient, and that recording it again changes nothing.
use hail_system.Prelude.{
  ℕ, ◌≡◌, refl, sym, ap, subst, ◌∙◌, String, Bool, true, false, Option, none, some, List, [], ◌∷◌,
  map, any, str_eq, if_cases, filter, All, All-filter, All-of_map, Has, Has-map, Has-of_filter,
  All-map, eq_iff, arith, inl, inr, Bool-cases,
}
use hail_system.Email.Store.{EmailRow, LogRow}
use hail_system.ConstantContact.Unsubs.{DncRow, find_row}
use hail_system.ConstantContact.Bounces.{
  Bounce, is_hard, recorded, is_own, codes, first_hard, or_first, worst_code, Book, is_hit,
  bounce_row, count_if, detail_of, suppress, record_bounce, check_one,
}

-- What the code that is recorded says of the records.
abbrev pub IsWorst : String → List Bounce → Option String → Type 0
IsWorst recipient records none = All (λ b. is_own recipient b ≡ false) records
IsWorst recipient records (some code) =
    ((b : Bounce) × Has b records × (is_own recipient b ≡ true) × (recorded b.bounce_code ≡ code))
    × (is_hard code ≡ false
        → All (λ (b : Bounce). is_own recipient b ≡ true → is_hard (recorded b.bounce_code) ≡ false)
            records)

abbrev HardIn : List String → Option String → Type 0
HardIn cs none = All (λ c. is_hard c ≡ false) cs
HardIn cs (some code) = Has code cs × (is_hard code ≡ true)

weaken-HardIn :
    (c : String) (cs : List String) (o : Option String)
    → is_hard c ≡ false
    → HardIn cs o
    → HardIn (c ∷ cs) o
weaken-HardIn c cs none e h = (e, h)
weaken-HardIn c cs (some code) e (m, k) = (inr m, k)

first_hard-HardIn : (cs : List String) → HardIn cs (first_hard cs)
unfolding first_hard
first_hard-HardIn [] = tt
first_hard-HardIn (c ∷ cs) =
    if_cases (HardIn (c ∷ cs)) (is_hard c) (λ e. (inl refl, e))
      (λ e. weaken-HardIn c cs (first_hard cs) e (first_hard-HardIn cs))

module _ (recipient : String) (records : List Bounce) where
  own_record :
      (code : String)
      → Has code (codes recipient records)
      → (b : Bounce) × Has b records × (is_own recipient b ≡ true) × (recorded b.bounce_code ≡ code)
  own_record code h =
      let (b, m, e) =
        Has-map (λ (b : Bounce). recorded b.bounce_code) code (filter (is_own recipient) records)
          h in
      let (k, own) = Has-of_filter (is_own recipient) b records m in (b, k, own, e)

  -- The choice between the first hard code and the first one.
  choose-IsWorst :
      (cs : List String) (o : Option String)
      → cs ≡ codes recipient records
      → HardIn cs o
      → IsWorst recipient records (or_first o cs)
  choose-IsWorst cs (some code) e (m, k) =
      (own_record code (subst (Has code) e m), (λ n. absurd (cc (k, n))))
  choose-IsWorst [] none e h =
      All-map (λ b. is_own recipient b ≡ true → ⊥) (λ b. is_own recipient b ≡ false) records
        (λ b f. elim (Bool-cases (is_own recipient b)) [ inl t ↦ absurd (f t) | inr n ↦ n ])
        (All-filter (λ _. ⊥) (is_own recipient) records
          (All-of_map (λ _. ⊥) (λ (b : Bounce). recorded b.bounce_code)
            (filter (is_own recipient) records) (subst (All (λ _. ⊥)) e tt)))
  choose-IsWorst (c ∷ cs) none e h = (
    own_record c (subst (Has c) e (inl refl)),
    (λ _.
        All-filter (λ (b : Bounce). is_hard (recorded b.bounce_code) ≡ false) (is_own recipient)
          records
          (All-of_map (λ code. is_hard code ≡ false) (λ (b : Bounce). recorded b.bounce_code)
            (filter (is_own recipient) records) (subst (All (λ code. is_hard code ≡ false)) e h))),
  )

  -- No code is recorded exactly where every record is another address's or says that the email was delivered. One
  -- that is recorded is a record's for this recipient, and where it is not hard, none of its records is.
  pub worst_code-IsWorst : IsWorst recipient records (worst_code records recipient)
  unfolding worst_code
  worst_code-IsWorst =
      choose-IsWorst (codes recipient records) (first_hard (codes recipient records)) refl
        (first_hard-HardIn (codes recipient records))

-- A row that is recorded as bounced is not hit again.
bounced_once :
    (now : ℕ) (detail : String) (id : ℕ) (l : LogRow)
    → is_hit id (bounce_row now detail id l) ≡ false
bounced_once now detail id l =
    if_cases (λ (m : LogRow). is_hit id m ≡ false) (is_hit id l) (λ _. ground arith) (λ h. h)

missed :
    (now : ℕ) (detail : String) (id : ℕ) (l : LogRow)
    → is_hit id l ≡ false
    → bounce_row now detail id l ≡ l
missed now detail id l h =
    if_cases (λ (m : LogRow). m ≡ l) (is_hit id l) (λ e. absurd (cc (e, h))) (λ _. refl)

bounced_any :
    (now : ℕ) (detail : String) (id : ℕ) (log : List LogRow)
    → any (is_hit id) (map (bounce_row now detail id) log) ≡ false
bounced_any now detail id [] = refl
bounced_any now detail id (l ∷ log) =
    ground (arith, bounced_once now detail id l, bounced_any now detail id log)

bounced_same :
    (now later : ℕ) (detail detail' : String) (id : ℕ) (log : List LogRow)
    → map (bounce_row later detail' id) (map (bounce_row now detail id) log)
      ≡ map (bounce_row now detail id) log
bounced_same now later detail detail' id [] = refl
bounced_same now later detail detail' id (l ∷ log) =
    ap (λ (m : LogRow). m ∷ map (bounce_row later detail' id) (map (bounce_row now detail id) log))
      (missed later detail' id (bounce_row now detail id l) (bounced_once now detail id l))
    ∙ ap (λ (ms : List LogRow). bounce_row now detail id l ∷ ms)
        (bounced_same now later detail detail' id log)

module _ (norm : String → String) (system_id : ℕ) where
  -- An address that is on the list stays as it is.
  found_first :
      (row : DncRow) (rows : List DncRow) (at : String)
      → row.email_norm ≡ at
      → find_row at (row ∷ rows) ≡ some row
  unfolding find_row
  found_first row rows at e =
      if_cases (λ (o : Option DncRow). o ≡ some row) (str_eq row.email_norm at) (λ _. refl)
        (λ h. absurd (cc (h, (eq_iff row.email_norm at).1 e)))

  record IsRecorded (email : EmailRow) (code : String) (book : Book) : Type 0 where
    unhit : any (is_hit email.email_id) book.log ≡ false
    unmoved : (now : ℕ) → map (bounce_row now (detail_of code) email.email_id) book.log ≡ book.log
    on_list :
        is_hard code ≡ true
        → (row : DncRow) × (find_row (norm email.recipient_email) book.dnc ≡ some row)

  again :
      (later : ℕ) (email : EmailRow) (code : String) (book : Book)
      → IsRecorded email code book
      → record_bounce norm system_id later email (some code) book ≡ ((0, 0), book)
  unfolding record_bounce suppress
  again later email code book h =
      let id : ℕ = email.email_id in
      let marked : Book = record book {
        log = map (bounce_row later (detail_of code) id) book.log;
      } in
      let hit : Bool = any (is_hit id) book.log in
      let none_left : (ℕ × ℕ) × Book = ((0, 0), book) in
      let first : (ℕ × ℕ) × Book = ((count_if hit, 0), marked) in
      let quiet : first ≡ none_left =
        ap {B = (ℕ × ℕ) × Book} (λ (b : Bool). ((count_if b, 0), marked)) h.unhit
        ∙ ap {B = (ℕ × ℕ) × Book} (λ (log : List LogRow). ((0, 0), record book { log = log }))
            (h.unmoved later) in
      if_cases (λ (p : ℕ × Book). ◌≡◌ {A = (ℕ × ℕ) × Book} ((count_if hit, p.0), p.1) none_left)
        (is_hard code)
        (λ hard.
          let (row, e) = h.on_list hard in
          ap {B = (ℕ × ℕ) × Book}
            (λ (o : Option DncRow).
              let p : ℕ × Book =
                suppress norm system_id later email.recipient_email (detail_of code) o marked in
              ((count_if hit, p.0), p.1))
            e
          ∙ quiet)
        (λ _. quiet)

  suppress-on_list :
      (now : ℕ) (recipient detail : String) (o : Option DncRow) (book : Book)
      → find_row (norm recipient) book.dnc ≡ o
      → (row : DncRow) × (find_row
            (norm recipient)
            (suppress norm system_id now recipient detail o book).1.dnc
          ≡ some row)
  unfolding suppress
  suppress-on_list now recipient detail (some row) book e = (row, e)
  suppress-on_list now recipient detail none book e =
      (_, found_first _ book.dnc (norm recipient) refl)

  suppress-log :
      (now : ℕ) (recipient detail : String) (o : Option DncRow) (book : Book)
      → (suppress norm system_id now recipient detail o book).1.log ≡ book.log
  unfolding suppress
  suppress-log now recipient detail (some row) book = refl
  suppress-log now recipient detail none book = refl

  record_bounce-IsRecorded :
      (now : ℕ) (email : EmailRow) (code : String) (book : Book)
      → IsRecorded email code (record_bounce norm system_id now email (some code) book).1
  unfolding record_bounce
  record_bounce-IsRecorded now email code book =
      let id : ℕ = email.email_id in
      let detail : String = detail_of code in
      let marked : Book = record book { log = map (bounce_row now detail id) book.log } in
      let o : Option DncRow = find_row (norm email.recipient_email) book.dnc in
      let still : (log : List LogRow)
          → log ≡ marked.log
          → (any (is_hit id) log ≡ false)
            × ((later : ℕ) → map (bounce_row later detail id) log ≡ log) =
        λ log e. (
          ap (λ (l : List LogRow). any (is_hit id) l) e ∙ bounced_any now detail id book.log,
          (λ later.
              ap (λ (l : List LogRow). map (bounce_row later detail id) l) e
              ∙ bounced_same now later detail detail id book.log
              ∙ sym e),
        ) in
      if_cases (λ (p : ℕ × Book). IsRecorded email code p.1) (is_hard code)
        (λ _.
          let (a, b) = still _ (suppress-log now email.recipient_email detail o marked) in
          record {
            unhit = a;
            unmoved = b;
            on_list = λ _. suppress-on_list now email.recipient_email detail o marked refl;
          })
        (λ soft.
          let (a, b) = still marked.log refl in
          record { unhit = a; unmoved = b; on_list = λ hard. absurd (cc (soft, hard)) })

  record_bounce_twice :
      (now later : ℕ) (email : EmailRow) (code : Option String) (book : Book)
      → record_bounce norm system_id later email code
          (record_bounce norm system_id now email code book).1
        ≡ ((0, 0), (record_bounce norm system_id now email code book).1)
  unfolding record_bounce
  record_bounce_twice now later email none book = refl
  record_bounce_twice now later email (some code) book =
      again later email code (record_bounce norm system_id now email (some code) book).1
        (record_bounce-IsRecorded now email code book)

  -- Checking an email a second time, with the same answer of Constant Contact, changes nothing and counts nothing.
  pub check_one_twice :
      (now later : ℕ) (email : EmailRow) (records : List Bounce) (book : Book)
      → check_one norm system_id later email records
          (check_one norm system_id now email records book).1
        ≡ ((0, 0), (check_one norm system_id now email records book).1)
  unfolding check_one
  check_one_twice now later email records book =
      record_bounce_twice now later email (worst_code records email.recipient_email) book
