-- ===== src/Web.antt =====
-- What the handlers of the services answer: `ok` and `fail` with their envelope, and the plain JSON of
-- the internal endpoints. The texts of the messages are left out.
use go_order_management_syst.Prelude.{ℕ, Bool, ◌&&◌, leb}

pub data Response (A : Type 0) : Type 0 where
  -- a status, and the body under `code` 0
  success : ℕ → A → Response A
  -- a status and a code of this program
  failure : ℕ → ℕ → Response A
  -- an answer of an internal endpoint
  internal_success : ℕ → A → Response A
  internal_failure : ℕ → Response A

module _ {A : Type 0} where
  abbrev pub http_status : Response A → ℕ
  http_status (success s a) = s
  http_status (failure s c) = s
  http_status (internal_success s a) = s
  http_status (internal_failure s) = s

  -- A status 2xx, by which a client knows that its request was carried out.
  abbrev pub is_success : Response A → Bool
  is_success r = leb 200 (http_status r) && leb (http_status r) 299
