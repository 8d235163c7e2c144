-- ===== src/ConstantContact/Bounces/Runs/Progress.antt =====
-- What checking emails one after the other does to send_log and dnc_list, told from the answers to the checks.
use hail_system.Prelude.{
  ℕ, ◌+◌, ◌≤◌, ◌≡◌, refl, sym, ap, ◌∙◌, ◌⊎◌, inl, inr, String, Bool, true, false, ◌&&◌, Option,
  none, some, List, [], ◌∷◌, ◌++◌, map, any, length, length-append, if_cases, append_assoc, ◌==◌,
  str_eq, is_some, All, Has, eq_iff, arith,
}
use hail_system.Email.Store.{bounced, EmailRow, LogRow, is_sent}
use hail_system.ConstantContact.Unsubs.{DncRow, find_row}
use hail_system.ConstantContact.Bounces.{
  Bounce, is_hard, worst_code, Book, is_hit, bounce_row, count_if, detail_of, suppressed_row,
  suppress, record_bounce, Tally, add_tally,
}

-- An email that was asked about: the records that Constant Contact answered, and when it was.
pub record Entry : Type 0 where
  pub email : EmailRow
  pub now : ℕ
  pub records : List Bounce

abbrev pub code_of : Entry → Option String
code_of x = worst_code x.records x.email.recipient_email

abbrev pub is_hard_code : Option String → Bool
is_hard_code none = false
is_hard_code (some code) = is_hard code

-- The answer has a bounce of the email.
abbrev pub names : ℕ → Entry → Bool
names id x = (x.email.email_id == id) && is_some (code_of x)

-- A row of send_log after the entries: bounced, by one that has a bounce of its email, where it was sent and there is
-- such an entry; else as it was.
abbrev pub Fate : List Entry → LogRow → LogRow → Type 0
Fate trace l m =
    ((m ≡ l) × (is_sent l.send_status && any (names l.email_id) trace ≡ false))
    ⊎ ((is_sent l.send_status ≡ true)
        × ((x : Entry) × (code : String) × Has x trace
            × (code_of x ≡ some code)
            × (x.email.email_id ≡ l.email_id)
            × (m ≡ record l {
              send_status = bounced;
              status_updated_at = some x.now;
              error_detail = some (detail_of code);
            })))

abbrev pub Fates : List Entry → List LogRow → List LogRow → Type 0
Fates trace [] [] = Unit
Fates trace (l ∷ ls) (m ∷ ms) = Fate trace l m × Fates trace ls ms
Fates trace [] (m ∷ ms) = ⊥
Fates trace (l ∷ ls) [] = ⊥

pub no_entry-Fates : (ls : List LogRow) → Fates [] ls ls
no_entry-Fates [] = tt
no_entry-Fates (l ∷ ls) = (inl (refl, ground arith), no_entry-Fates ls)

module _ (x : Entry) (trace : List Entry) where
  -- An entry in front that does not touch the row.
  later-Fate :
      (l m : LogRow)
      → is_sent l.send_status && names l.email_id x ≡ false
      → Fate trace l m
      → Fate (x ∷ trace) l m
  later-Fate l m n (inl (e, f)) = inl (e, ground (arith, f, n))
  later-Fate l m n (inr (s, (y, code, h, c, i, e))) = inr (s, (y, code, inr h, c, i, e))

  first-Fate :
      (l m : LogRow) (code : String)
      → is_sent l.send_status ≡ true
      → code_of x ≡ some code
      → x.email.email_id ≡ l.email_id
      → Fate trace
          (record l {
            send_status = bounced;
            status_updated_at = some x.now;
            error_detail = some (detail_of code);
          })
          m
      → Fate (x ∷ trace) l m
  first-Fate l m code s c i (inl (e, f)) = inr (s, (x, code, inl refl, c, i, e))
  first-Fate l m code s c i (inr (t, r)) = absurd (cc t)

  quiet-Fates :
      (ls ms : List LogRow) → code_of x ≡ none → Fates trace ls ms → Fates (x ∷ trace) ls ms
  quiet-Fates [] [] c h = tt
  quiet-Fates (l ∷ ls) (m ∷ ms) c (h, hs) = (
    later-Fate l m (ground (arith, ap (λ (o : Option String). is_some o) c)) h,
    quiet-Fates ls ms c hs,
  )
  quiet-Fates [] (m ∷ ms) c h = absurd h
  quiet-Fates (l ∷ ls) [] c h = absurd h

  bounced-Fates :
      (code : String) (ls ms : List LogRow)
      → code_of x ≡ some code
      → Fates trace (map (bounce_row x.now (detail_of code) x.email.email_id) ls) ms
      → Fates (x ∷ trace) ls ms
  bounced-Fates code [] [] c h = tt
  bounced-Fates code (l ∷ ls) (m ∷ ms) c (h, hs) = (
    if_cases (λ (k : LogRow). Fate trace k m → Fate (x ∷ trace) l m) (is_hit x.email.email_id l)
        (λ q. first-Fate l m code (ground (arith, q)) c (ground (arith, q)))
        (λ q. later-Fate l m (ground (arith, q))) h,
    bounced-Fates code ls ms c hs,
  )
  bounced-Fates code [] (m ∷ ms) c h = absurd h
  bounced-Fates code (l ∷ ls) [] c h = absurd h

any-later : {A : Type 0} (p : A → Bool) (xs ys : List A) → any p ys ≡ true → any p (xs ++ ys) ≡ true
any-later p [] ys h = h
any-later p (x ∷ xs) ys h = ground (arith, any-later p xs ys h)

found-any :
    (at : String) (rows : List DncRow) (row : DncRow)
    → find_row at rows ≡ some row
    → any (λ (r : DncRow). str_eq r.email_norm at) rows ≡ true
unfolding find_row
found-any at [] row h = absurd (cc h)
found-any at (r ∷ rows) row h =
    if_cases
      (λ (o : Option DncRow).
        o ≡ some row → any (λ (q : DncRow). str_eq q.email_norm at) (r ∷ rows) ≡ true)
      (str_eq r.email_norm at) (λ e _. ground (arith, e))
      (λ _ k. ground (arith, found-any at rows row k)) h

module _ (norm : String → String) where
  -- A row that an entry's hard bounce put on the list.
  abbrev pub is_named_by : DncRow → Entry → Bool
  is_named_by row x =
      is_hard_code (code_of x) && str_eq row.email_norm (norm x.email.recipient_email)

  -- The address of a hard bounce is on the list.
  abbrev pub OnList : List DncRow → Entry → Type 0
  OnList dnc x =
      (is_hard_code (code_of x) ≡ false)
      ⊎ (any (λ (r : DncRow). str_eq r.email_norm (norm x.email.recipient_email)) dnc ≡ true)

  -- What the entries of a check have done to a book and to the counts.
  pub record IsDone (old book : Book) (t : Tally) (trace : List Entry) (u : Tally) : Type 0 where
    pub emails : book.emails ≡ old.emails
    pub log : Fates trace old.log book.log
    pub dnc :
        (added : List DncRow) × (book.dnc ≡ added ++ old.dnc)
        × (u.suppressed ≡ t.suppressed + length added)
        × All (λ (r : DncRow). any (is_named_by r) trace ≡ true) added
    pub on_list : All (OnList book.dnc) trace
    pub checked : u.checked ≡ t.checked + length trace
    pub bounced : u.bounced ≤ t.bounced + length trace

  -- One entry: at most one bounce, and a suppression is a row that is put in front.
  abbrev pub Little : Entry → Book → (ℕ × ℕ) × Book → Type 0
  Little x old ((b, s), book) =
      (b ≤ 1)
      × (book.emails ≡ old.emails)
      × ((trace : List Entry) (ms : List LogRow)
          → Fates trace book.log ms
          → Fates (x ∷ trace) old.log ms)
      × ((added : List DncRow) × (book.dnc ≡ added ++ old.dnc)
          × (length added ≡ s)
          × All (λ (r : DncRow). is_named_by r x ≡ true) added)
      × OnList book.dnc x

  OnList-later : (x : Entry) (xs ys : List DncRow) → OnList ys x → OnList (xs ++ ys) x
  OnList-later x xs ys (inl h) = inl h
  OnList-later x xs ys (inr h) = inr (any-later _ xs ys h)

  named_more :
      (x : Entry) (trace : List Entry) (rows more : List DncRow)
      → All (λ (r : DncRow). any (is_named_by r) trace ≡ true) rows
      → All (λ (r : DncRow). is_named_by r x ≡ true) more
      → All (λ (r : DncRow). any (is_named_by r) (x ∷ trace) ≡ true) (rows ++ more)
  named_more x trace [] [] h k = tt
  named_more x trace [] (r ∷ more) h (k, ks) = (ground (arith, k), named_more x trace [] more h ks)
  named_more x trace (r ∷ rows) more (h, hs) k =
      (ground (arith, h), named_more x trace rows more hs k)

  -- The check of one email, and then the rest.
  pub Little-IsDone :
      (x : Entry) (old book : Book) (t u : Tally) (trace : List Entry) (r : (ℕ × ℕ) × Book)
      → Little x old r
      → IsDone r.1 book (add_tally r.0 t) trace u
      → IsDone old book t (x ∷ trace) u
  Little-IsDone x old book t u trace ((b, s), mid) (one, e, log, (added, d, l, n), on) h =
      let (more, f, k, m) = h.dnc in
      record {
        emails = h.emails ∙ e;
        log = log trace book.log h.log;
        dnc = (
          more ++ added,
          f ∙ ap (λ (rows : List DncRow). more ++ rows) d ∙ sym (append_assoc more added old.dnc),
          omega (arith, length-append more added, l, k),
          named_more x trace more added m n,
        );
        on_list = (rw f (OnList-later x more mid.dnc on), h.on_list);
        checked = omega (arith, h.checked);
        bounced = omega (arith, h.bounced, one);
      }

  module _ (system_id : ℕ) (x : Entry) (code : String) (c : code_of x ≡ some code) where
    hard_code : is_hard code ≡ true → is_hard_code (code_of x) ≡ true
    hard_code h = ap (λ (o : Option String). is_hard_code o) c ∙ h

    suppress-Little :
        (o : Option DncRow) (old marked : Book) (b : Bool)
        → is_hard code ≡ true
        → find_row (norm x.email.recipient_email) marked.dnc ≡ o
        → marked.emails ≡ old.emails
        → marked.log ≡ map (bounce_row x.now (detail_of code) x.email.email_id) old.log
        → marked.dnc ≡ old.dnc
        → let r : ℕ × Book =
            suppress norm system_id x.now x.email.recipient_email (detail_of code) o marked in
          Little x old ((count_if b, r.0), r.1)
    unfolding suppress
    suppress-Little (some row) old marked b hard f e m d = (
      ground arith,
      e,
      (λ trace ms h. bounced-Fates x trace code old.log ms c (rw (← m) h)),
      ([], d, refl, tt),
      inr (found-any (norm x.email.recipient_email) marked.dnc row f),
    )
    suppress-Little none old marked b hard f e m d =
        let row : DncRow =
          suppressed_row norm system_id x.now x.email.recipient_email (detail_of code) marked in
        let at : String = norm x.email.recipient_email in
        let same : str_eq at at ≡ true = (eq_iff at at).1 refl in
        (
          ground arith,
          e,
          (λ trace ms h. bounced-Fates x trace code old.log ms c (rw (← m) h)),
          (
            row ∷ [],
            ap (λ (rows : List DncRow). row ∷ rows) d,
            refl,
            (ground (arith, hard_code hard, same), tt),
          ),
          inr (ground (arith, same)),
        )

  pub record_bounce-Little :
      (system_id : ℕ) (x : Entry) (o : Option String) (book : Book)
      → code_of x ≡ o
      → Little x book (record_bounce norm system_id x.now x.email o book)
  unfolding record_bounce
  record_bounce-Little system_id x none book c = (
    omega arith,
    refl,
    (λ trace ms h. quiet-Fates x trace book.log ms c h),
    ([], refl, refl, tt),
    inl (ap (λ (o : Option String). is_hard_code o) c),
  )
  record_bounce-Little system_id x (some code) book c =
      let id : ℕ = x.email.email_id in
      let marked : Book = record book {
        log = map (bounce_row x.now (detail_of code) id) book.log;
      } in
      if_cases (λ (p : ℕ × Book). Little x book ((count_if (any (is_hit id) book.log), p.0), p.1))
        (is_hard code)
        (λ hard.
          suppress-Little system_id x code c _ book marked (any (is_hit id) book.log) hard refl refl
            refl refl)
        (λ soft. (
          ground arith,
          refl,
          (λ trace ms h. bounced-Fates x trace code book.log ms c h),
          ([], refl, refl, tt),
          inl (ap (λ (o : Option String). is_hard_code o) c ∙ soft),
        ))
