-- ===== src/Http/Contract/Rules.antt =====
-- Responses that a contract declares, and the rules for handlers that give only such responses.
use gowallet.Prelude.{
  String, ◌≡◌, refl, sym, ◌==◌, Bool-cases, ◌⊎◌, inl, inr, Option, none, some, List, [], ◌∷◌, Bool,
  true, false, Result, ok, err, All, if◌then◌else◌,
}
use mathlib.Core.Path.{subst}
use gowallet.Wallet.{
  is, Sentinel, Error, Call, Identity, Role, admin, member, not_found, account_exists,
  invalid_input, duplicate_ref, insufficient_balance, invalid_credentials, forbidden,
}
use gowallet.Wallet.Raises.{root, IsIn, IsRaised, Only, Leaves, Gives}
use gowallet.Http.Response.{Response, Web, reply, run, on_result, write_json}
use gowallet.Http.Errors.{write_error, write_domain_error, echoed}
use gowallet.Http.Errors.Statuses.{answered_status}
use gowallet.Wallet.Auth.{authorize, is_admin}
use gowallet.Http.Identity.{authorize_target, admin_only, require_admin}
use gowallet.Http.Transactions.{record_failed}
use gowallet.Http.Contract.Bodies.{ErrorBody, error_body}

-- A response that is declared, or the 500 of a broken server.
abbrev pub Fits : (Response → Type 0) → Response → Type 0
Fits Declared r = (r.status ≡ 500) ⊎ Declared r

-- The contract declares an error body for the status of a sentinel.
abbrev pub Refusable : (Response → Type 0) → Sentinel → Type 0
Refusable Declared s = (b : ErrorBody) → Declared (write_json (answered_status s) (error_body b))

-- In every state with `P`, the response of a handler has `D`.
pub record Answers {S : Type 0} (P : S → Type 0) (D : Response → Type 0) (f : Web S) : Type 0 where
  pub at : (s : S) → P s → D (f s).0

-- The response is that of a response object, whose enumerated fields have known values.
abbrev pub Declares : {O : Type 0} → (O → Response) → (O → Bool) → Response → Type 0
Declares {O} visit valid r = (o : O) × (visit o ≡ r) × (valid o ≡ true)

-- A response object with no field of an enumerated type.
abbrev pub no_enums : {O : Type 0} → O → Bool
no_enums o = true

authorize_target-Only :
    (identity : Option Identity) (target : String)
    → Only (forbidden ∷ []) (authorize_target identity target)
unfolding authorize_target authorize
authorize_target-Only none target = inl refl
authorize_target-Only (some id) target = elim (Bool-cases (is_admin id.role)) [
  | inl admits ↦ rw admits tt
  | inr plain ↦ elim (Bool-cases (id.account_id == target)) [
    | inl same ↦ rw (plain, same) tt
    | inr other ↦ rw (plain, other) (inl refl)
  ]
]

admin_only-Only : (r : Role) → Only (forbidden ∷ []) (admin_only r)
unfolding admin_only
admin_only-Only admin = tt
admin_only-Only member = inl refl

require_admin-Only : (identity : Option Identity) → Only (forbidden ∷ []) (require_admin identity)
unfolding require_admin
require_admin-Only none = inl refl
require_admin-Only (some id) = admin_only-Only id.role

All-IsIn : (Q : Sentinel → Type 0) (s : Sentinel) (ss : List Sentinel) → All Q ss → IsIn s ss → Q s
All-IsIn Q s (x ∷ xs) h (inl same) = subst Q (sym same) h.0
All-IsIn Q s (x ∷ xs) h (inr later) = All-IsIn Q s xs h.1 later
All-IsIn Q s [] h i = elim i [ ]

module _ (Declared : Response → Type 0) (ss : List Sentinel)
    (refusable : All (Refusable Declared) ss) where
  refused : (s : Sentinel) → IsIn s ss → Refusable Declared s
  refused s i = All-IsIn (Refusable Declared) s ss refusable i

  -- `writeDomainError` of an error that wraps only sentinels whose status is declared.
  pub write_domain_error-Fits :
      (request_id : String) (e : Error)
      → IsRaised ss (root e)
      → Fits Declared (write_domain_error request_id e)
  unfolding write_domain_error write_error
  write_domain_error-Fits request_id (Error.sentinel not_found) i = inr (
      refused not_found i (record {
        code = "not_found";
        message = "resource not found";
        request_id = echoed request_id;
      }))
  write_domain_error-Fits request_id (Error.sentinel account_exists) i = inr (
      refused account_exists i (record {
        code = "account_exists";
        message = "account_id already exists";
        request_id = echoed request_id;
      }))
  write_domain_error-Fits request_id (Error.sentinel invalid_input) i = inr (
      refused invalid_input i (record {
        code = "invalid_input";
        message = "request body is invalid";
        request_id = echoed request_id;
      }))
  write_domain_error-Fits request_id (Error.sentinel insufficient_balance) i = inr (
      refused insufficient_balance i (record {
        code = "insufficient_balance";
        message = "transaction would drive balance below zero";
        request_id = echoed request_id;
      }))
  write_domain_error-Fits request_id (Error.sentinel forbidden) i = inr (
      refused forbidden i (record {
        code = "forbidden";
        message = "you may not access this account";
        request_id = echoed request_id;
      }))
  write_domain_error-Fits request_id (Error.sentinel duplicate_ref) i = inl refl
  write_domain_error-Fits request_id (Error.sentinel invalid_credentials) i = inl refl
  write_domain_error-Fits request_id (Error.external text) i = inl refl
  write_domain_error-Fits request_id (Error.wrap context e) i =
      write_domain_error-Fits request_id e i

  pub if-Fits :
      (b : Bool) (x y : Response)
      → Fits Declared x
      → Fits Declared y
      → Fits Declared (if b then x else y)
  if-Fits true x y hx hy = hx
  if-Fits false x y hx hy = hy

  pub record_failed-Fits :
      Refusable Declared not_found
      → (request_id : String) (e : Error) → IsRaised ss (root e)
      → Fits Declared (record_failed request_id e)
  unfolding record_failed write_error
  record_failed-Fits missing request_id e i =
      if-Fits (is e not_found) _ _
        (inr (
          missing (record {
            code = "account_not_found";
            message = "account_id does not exist";
            request_id = echoed request_id;
          })))
        (write_domain_error-Fits request_id e i)

module _ {S : Type 0} {P : S → Type 0} {D : Response → Type 0} where
  pub reply-Answers : (r : Response) → D r → Answers P D (reply r)
  unfolding reply
  reply-Answers r h = record { at = λ s _. h }

  pub if-Answers :
      (b : Bool) (f g : Web S) → Answers P D f → Answers P D g → Answers P D (if b then f else g)
  if-Answers true f g hf hg = hf
  if-Answers false f g hf hg = hg

  pub on_result-Answers :
      {A : Type 0} (ss : List Sentinel) (r : Result Error A) (f : A → Web S) (g : Error → Web S)
      → Only ss r
      → ((a : A) → Answers P D (f a))
      → ((e : Error) → IsRaised ss (root e) → Answers P D (g e))
      → Answers P D (on_result r f g)
  unfolding on_result
  on_result-Answers ss (ok a) f g h hf hg = record { at = (hf a).at }
  on_result-Answers ss (err e) f g h hf hg = record { at = (hg e h).at }

-- Any state.
abbrev pub Any : {S : Type 0} → S → Type 0
Any s = Unit

abbrev pub domain_error : {S : Type 0} → String → Error → Web S
domain_error request_id e = reply (write_domain_error request_id e)

pub domain_error-Answers :
    {S : Type 0} {P : S → Type 0} (D : Response → Type 0) (request_id : String) (ss : List Sentinel)
    → All (Refusable D) ss
    → (e : Error) → IsRaised ss (root e)
    → Answers P (Fits D) (domain_error request_id e)
domain_error-Answers D request_id ss refusable e i =
    reply-Answers _ (write_domain_error-Fits D ss refusable request_id e i)

nothing_asked : {S A : Type 0} (r : Result Error A × S) → Leaves Any r
nothing_asked (ok a, s) = tt
nothing_asked (err e, s) = tt

module _ {S : Type 0} {P : S → Type 0} where
  -- A call with what follows it, where a success leaves `Q`.
  pub run_leaving-Answers :
      {Q : S → Type 0} (D : Response → Type 0) {A : Type 0} (ss : List Sentinel) (m : Call S A)
      (f : A → Web S) (g : Error → Web S)
      → ((s : S) → P s → Only ss (m s).0 × Leaves Q (m s))
      → ((a : A) → Answers Q D (f a))
      → ((e : Error) → IsRaised ss (root e) → Answers Any D (g e))
      → Answers P D (run m f g)
  unfolding run on_result
  run_leaving-Answers {Q} D {A} ss m f g h hf hg = record {
    at = λ s p. after (m s).0 (m s).1 (h s p).0 (h s p).1;
  }
    where
      after : (r : Result Error A) (s : S) → Only ss r → Leaves Q (r, s) → D (on_result r f g s).0
      after (ok a) s only left = (hf a).at s left
      after (err e) s only left = (hg e only).at s tt

  -- A call with what follows it, where a success gives a value with `V`.
  pub run_giving-Answers :
      {A : Type 0} (V : A → Type 0) (D : Response → Type 0) (ss : List Sentinel) (m : Call S A)
      (f : A → Web S) (g : Error → Web S)
      → ((s : S) → P s → Only ss (m s).0)
      → ((s : S) → P s → Gives V (m s).0)
      → ((a : A) → V a → Answers Any D (f a))
      → ((e : Error) → IsRaised ss (root e) → Answers Any D (g e))
      → Answers P D (run m f g)
  unfolding run on_result
  run_giving-Answers {A} V D ss m f g h v hf hg = record {
    at = λ s p. after (m s).0 (m s).1 (h s p) (v s p);
  }
    where
      after : (r : Result Error A) (s : S) → Only ss r → Gives V r → D (on_result r f g s).0
      after (ok a) s only given = (hf a given).at s tt
      after (err e) s only given = (hg e only).at s tt

  pub run-Answers :
      (D : Response → Type 0) {A : Type 0} (ss : List Sentinel) (m : Call S A) (f : A → Web S)
      (g : Error → Web S)
      → ((s : S) → P s → Only ss (m s).0)
      → ((a : A) → Answers Any D (f a))
      → ((e : Error) → IsRaised ss (root e) → Answers Any D (g e))
      → Answers P D (run m f g)
  run-Answers D ss m f g h hf hg =
      run_leaving-Answers D ss m f g (λ s p. (h s p, nothing_asked (m s))) hf hg

  module _ (D : Response → Type 0) (request_id : String) where
    -- A call of a service, whose errors go through `writeDomainError`.
    pub service_call-Answers :
        {A : Type 0} (ss : List Sentinel) (m : Call S A) (answer : A → Response)
        → ((s : S) → P s → Only ss (m s).0)
        → All (Refusable D) ss
        → ((a : A) → D (answer a))
        → Answers P (Fits D) (run m (λ a. reply (answer a)) (domain_error request_id))
    service_call-Answers ss m answer h refusable declared =
        run-Answers (Fits D) ss m _ _ h (λ a. reply-Answers _ (inr (declared a)))
          (domain_error-Answers D request_id ss refusable)

    -- The same where what the call gives matters for the answer.
    pub service_giving-Answers :
        {A : Type 0} (V : A → Type 0) (ss : List Sentinel) (m : Call S A) (answer : A → Response)
        → ((s : S) → P s → Only ss (m s).0)
        → ((s : S) → P s → Gives V (m s).0)
        → All (Refusable D) ss
        → ((a : A) → V a → D (answer a))
        → Answers P (Fits D) (run m (λ a. reply (answer a)) (domain_error request_id))
    service_giving-Answers V ss m answer h v refusable declared =
        run_giving-Answers V (Fits D) ss m _ _ h v
          (λ a given. reply-Answers _ (inr (declared a given)))
          (domain_error-Answers D request_id ss refusable)

    -- The access seams of the handlers.
    pub authorize_target-Answers :
        (identity : Option Identity) (target : String) (next : String → Web S)
        → Refusable D forbidden
        → ((id : String) → Answers P (Fits D) (next id))
        → Answers P
            (Fits D)
            (on_result (authorize_target identity target) next (domain_error request_id))
    authorize_target-Answers identity target next refusable h =
        on_result-Answers (forbidden ∷ []) _ next _ (authorize_target-Only identity target) h
          (domain_error-Answers D request_id (forbidden ∷ []) (refusable, tt))

    pub require_admin-Answers :
        (identity : Option Identity) (next : Unit {0} → Web S)
        → Refusable D forbidden
        → ((u : Unit {0}) → Answers P (Fits D) (next u))
        → Answers P (Fits D) (on_result (require_admin identity) next (domain_error request_id))
    require_admin-Answers identity next refusable h =
        on_result-Answers (forbidden ∷ []) _ next _ (require_admin-Only identity) h
          (domain_error-Answers D request_id (forbidden ∷ []) (refusable, tt))
