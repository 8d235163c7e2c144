-- ===== src/ConstantContact/Errors.antt =====
-- constantcontact/api.py ApiError, and the two readings of it in constantcontact/campaigns.py.
use hail_system.Prelude.{
  ℕ, String, Bool, true, false, ◌&&◌, ◌||◌, Option, none, some, ltb, leb, ◌==◌,
}

pub record ApiError : Type 0 where
  pub message : String
  pub status : Option ℕ
  pub key : Option String

unknown_status : Option ℕ → Bool
unknown_status none = true
unknown_status (some status) = leb 500 status || (leb 200 status && ltb status 300)

-- The request may have taken effect.
unfoldable pub is_unknown_outcome : ApiError → Bool
unfolding unknown_status
is_unknown_outcome exc = unknown_status exc.status

stopping_status : Option ℕ → Bool
stopping_status none = false
stopping_status (some status) = status == 401 || status == 403 || status == 429

-- Credentials or quota: the batch cannot go on.
unfoldable pub stops_batch : ApiError → Bool
unfolding stopping_status
stops_batch exc = stopping_status exc.status
