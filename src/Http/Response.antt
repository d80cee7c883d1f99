-- ===== src/Http/Response.antt =====
-- What a handler answers (the wire types of api/openapi.yaml, as internal/httpapi/gen has them), and
-- how handlers call the services.
use gowallet.Prelude.{ℕ, String, Option, List, [], ◌∷◌, Result, ok, err}
use gowallet.Prelude.Int.{ℤ}
use gowallet.Wallet.{Time, Account, AccountSummary, AuditEntry, Error, Call}

-- `gen.BatchSummary`
pub record BatchSummary : Type 0 where
  pub processed : ℕ
  pub accepted : ℕ
  pub rejected : ℕ
  pub duplicates : ℕ

-- One ledger line on the wire; `gen.LedgerEntry` has no account and no reward.
pub record LedgerEntry : Type 0 where
  pub ref : String
  pub kind : String
  pub points : ℤ
  pub occurred_at : Time

pub data Body : Type 0 where
  -- `gen.Error`: code, message, request id
  error : String → String → Option String → Body
  account : Account → Body
  balance : String → ℤ → Body
  account_list : List AccountSummary → Body
  transaction_list : List LedgerEntry → Body
  -- `gen.Transaction`: account and ledger line
  transaction : String → LedgerEntry → Body
  -- `gen.Redemption`: account, ledger line and reward
  redemption : String → LedgerEntry → String → Body
  audit_list : List AuditEntry → Body
  summary : BatchSummary → Body
  -- `gen.TokenResponse`: token, type, seconds
  token : String → String → ℕ → Body
  -- `gen.Health`: status, database
  health : String → String → Body
  -- bytes written as they are
  raw : String → Body

pub record Response : Type 0 where
  pub status : ℕ
  pub headers : List (String × String)
  pub body : Body

-- `writeJSON`
abbrev pub write_json : ℕ → Body → Response
write_json status body = record {
  status = status;
  headers = ("Content-Type", "application/json") ∷ [];
  body = body;
}

abbrev pub add_header : String → String → Response → Response
add_header name value r = record r { headers = (name, value) ∷ r.headers }

-- A handler's effect: the response, and the state after it.
abbrev pub Web : Type 0 → Type 0
Web S = S → Response × S

unfoldable pub reply : {S : Type 0} → Response → Web S
reply r s = (r, s)

unfoldable pub on_result : {S A : Type 0} → Result Error A → (A → Web S) → (Error → Web S) → Web S
on_result (ok a) f g s = f a s
on_result (err e) f g s = g e s

-- `x, err := service(…); if err != nil { …; return }`
unfoldable pub run : {S A : Type 0} → Call S A → (A → Web S) → (Error → Web S) → Web S
unfolding reply on_result
run m f g s = let (r, s') = m s in on_result r f g s'
