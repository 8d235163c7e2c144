-- ===== src/ConstantContact/Contacts.antt =====
-- `iter_unsubscribed` of constantcontact/api.py: the pages of unsubscribed contacts. The caller's loop body is `each`,
-- run on its own state `X` as the contacts come.
use hail_system.Prelude.{
  ℕ, zero, suc, ◌+◌, String, Option, none, some, List, [], ◌∷◌, if◌then◌else◌,
}
use hail_system.Text.{is_empty, starts_with, drop}
use hail_system.Exec.{Result, ok, raised}
use hail_system.ConstantContact.Errors.{ApiError}
use hail_system.ConstantContact.Transport.{Fail, api, Request, Outside, Wire, max_retries, request}
use hail_system.ConstantContact.Transport.Retries.{Ended, request-Ended}

pub record Query : Type 0 where
  pub limit : ℕ
  pub updated_after : Option String

-- `doc["contacts"]`, and `doc["_links"]["next"]["href"]` where it is there
pub record Page (C : Type 0) : Type 0 where
  pub contacts : List C
  pub href : Option String

abbrev pub max_pages : ℕ
max_pages = 1000

abbrev pub plain_error : String → ApiError
plain_error message = record { message = message; status = none; key = none }

unfoldable pub link_path : String → String
link_path href = if starts_with href "/v3/" then drop 3 href else href

-- `_next_path`, and no next page where there is no link
unfoldable pub next_path : Option String → Result ApiError (Option String)
unfolding link_path
next_path none = ok none
next_path (some href) =
    if is_empty href
    then ok none
    else if starts_with (link_path href) "/contacts"
    then ok (some (link_path href))
    else raised (plain_error "Constant Contact returned an unexpected paging link.")

-- `doc or {}`
abbrev pub contacts_of : {C : Type 0} → Option (Page C) → List C
contacts_of none = []
contacts_of (some page) = page.contacts

abbrev pub href_of : {C : Type 0} → Option (Page C) → Option String
href_of none = none
href_of (some page) = page.href

unfoldable pub each_of : {C X : Type 0} → (C → X → X) → List C → X → X
each_of each [] x = x
each_of each (c ∷ cs) x = each_of each cs (each c x)

abbrev pub page_request : String → Option Query → Request (Option Query)
page_request path query = record {
  method = "GET";
  path = path;
  payload = query;
  expect = 200 ∷ 201 ∷ 202 ∷ 204 ∷ [];
}

module _ {W C X : Type 0} (out : Outside W (Option Query) (Page C)) (each : C → X → X) where
  abbrev pub Paging : Type 0
  Paging = Option (Result Fail (Unit {0}) × X × Wire W (Page C))

  -- The next page, from its link; `go` is the next round.
  unfoldable pub follow :
      (String → X → Wire W (Page C) → Paging)
      → Result ApiError (Option String)
      → X
      → Wire W (Page C)
      → Paging
  follow go (raised e) x s = some (raised (api e), x, s)
  follow go (ok none) x s = some (ok tt, x, s)
  follow go (ok (some path)) x s = go path x s

  -- A page that was asked for.
  unfoldable pub take_page :
      (String → X → Wire W (Page C) → Paging)
      → X
      → Option (Result Fail (ℕ × Option (Page C)) × Wire W (Page C))
      → Paging
  unfolding follow each_of next_path
  take_page go x none = none
  take_page go x (some (raised e, s)) = some (raised e, x, s)
  take_page go x (some (ok (status, doc), s)) =
      follow go (next_path (href_of doc)) (each_of each (contacts_of doc) x) s

  -- The loop, with `left` pages to go before it gives up.
  unfoldable pub pages_from : ℕ → Option Query → String → X → Wire W (Page C) → Paging
  unfolding take_page
  pages_from zero query path x s =
      some (raised (api (plain_error "Constant Contact paging did not end.")), x, s)
  pages_from (suc left) query path x s =
      take_page (pages_from left none) x (request out (page_request path query) (max_retries + 1) s)

  -- `iter_unsubscribed`
  unfoldable pub iter_unsubscribed : Option String → X → Wire W (Page C) → Paging
  unfolding pages_from
  iter_unsubscribed updated_after x s =
      pages_from max_pages (some (record { limit = 500; updated_after = updated_after }))
        "/contacts" x s

-- A predicate that each contact keeps holds of the caller's state when the pages end, which they do.
abbrev pub Leaves :
    {W C X : Type 0} → (X → Type 0) → Option (Result Fail (Unit {0}) × X × Wire W (Page C)) → Type 0
Leaves Q none = ⊥
Leaves Q (some (r, x, s)) = Q x

module _ {W C X : Type 0} (out : Outside W (Option Query) (Page C)) (each : C → X → X)
    (Q : X → Type 0) (keeps : (c : C) (x : X) → Q x → Q (each c x)) where
  each_of-keeps : (cs : List C) (x : X) → Q x → Q (each_of each cs x)
  unfolding each_of
  each_of-keeps [] x h = h
  each_of-keeps (c ∷ cs) x h = each_of-keeps cs (each c x) (keeps c x h)

  follow-Leaves :
      (go : String → X → Wire W (Page C) → Option (Result Fail (Unit {0}) × X × Wire W (Page C)))
      (path : Result ApiError (Option String)) (x : X) (s : Wire W (Page C))
      → ((path : String) (x : X) (s : Wire W (Page C)) → Q x → Leaves Q (go path x s))
      → Q x
      → Leaves Q (follow out each go path x s)
  unfolding follow
  follow-Leaves go (raised e) x s ih h = h
  follow-Leaves go (ok none) x s ih h = h
  follow-Leaves go (ok (some path)) x s ih h = ih path x s h

  take_page-Leaves :
      (go : String → X → Wire W (Page C) → Option (Result Fail (Unit {0}) × X × Wire W (Page C)))
      (x : X) (req : Request (Option Query)) (s : Wire W (Page C))
      (r : Option (Result Fail (ℕ × Option (Page C)) × Wire W (Page C)))
      → ((path : String) (x : X) (s : Wire W (Page C)) → Q x → Leaves Q (go path x s))
      → Ended req s r
      → Q x
      → Leaves Q (take_page out each go x r)
  unfolding take_page
  take_page-Leaves go x req s none ih e h = e
  take_page-Leaves go x req s (some (raised e, s')) ih _ h = h
  take_page-Leaves go x req s (some (ok (status, doc), s')) ih _ h =
      follow-Leaves go (next_path (href_of doc)) (each_of each (contacts_of doc) x) s' ih
        (each_of-keeps (contacts_of doc) x h)

  pages_from-Leaves :
      (left : ℕ) (query : Option Query) (path : String) (x : X) (s : Wire W (Page C))
      → Q x
      → Leaves Q (pages_from out each left query path x s)
  unfolding pages_from
  pages_from-Leaves zero query path x s h = h
  pages_from-Leaves (suc left) query path x s h =
      take_page-Leaves _ x (page_request path query) s _
        (λ p y t k. pages_from-Leaves left none p y t k)
        (request-Ended out (page_request path query) s) h

  pub iter_unsubscribed-Leaves :
      (updated_after : Option String) (x : X) (s : Wire W (Page C))
      → Q x
      → Leaves Q (iter_unsubscribed out each updated_after x s)
  unfolding iter_unsubscribed
  iter_unsubscribed-Leaves updated_after x s h = pages_from-Leaves max_pages _ "/contacts" x s h
