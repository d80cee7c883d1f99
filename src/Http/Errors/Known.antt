-- ===== src/Http/Errors/Known.antt =====
-- Errors that `writeDomainError` has a status for.
use gowallet.Prelude.{
  String, ◌≡◌, refl, Bool, true, false, eqb, Result, ok, err, ap, ◌∙◌, if◌then◌else◌,
}
use gowallet.Wallet.{Error, Call}
use gowallet.Wallet.Raises.{root}
use gowallet.Http.Errors.{write_domain_error}
use gowallet.Http.Errors.Statuses.{answered_status_of, write_domain_error-status}
use gowallet.Http.Response.{Response, Web, reply, on_result, run}

-- A response that does not report trouble of the server.
abbrev pub IsAnswer : Response → Type 0
IsAnswer r = eqb r.status 500 ≡ false

abbrev pub IsKnown : Error → Type 0
IsKnown e = eqb (answered_status_of (root e)) 500 ≡ false

-- A call fails only with known errors.
abbrev pub FailsKnown : {A : Type 0} → Result Error A → Type 0
FailsKnown (ok a) = Unit
FailsKnown (err e) = IsKnown e

pub write_domain_error-IsAnswer :
    (request_id : String) (e : Error) → IsKnown e → IsAnswer (write_domain_error request_id e)
write_domain_error-IsAnswer request_id e h =
    ap (λ n. eqb n 500) (write_domain_error-status request_id e) ∙ h

module _ {S A : Type 0} (request_id : String) where
  -- A call in a state, with what follows it.
  pub on_result-IsAnswer :
      (r : Result Error A) (f : A → Web S) (s : S)
      → FailsKnown r
      → ((a : A) → r ≡ ok a → IsAnswer (f a s).0)
      → IsAnswer (on_result r f (λ e. reply (write_domain_error request_id e)) s).0
  unfolding on_result reply
  on_result-IsAnswer (ok a) f s h k = k a refl
  on_result-IsAnswer (err e) f s h k = write_domain_error-IsAnswer request_id e h

  pub run-IsAnswer :
      (m : Call S A) (f : A → Web S) (s : S)
      → FailsKnown (m s).0
      → ((a : A) → (m s).0 ≡ ok a → IsAnswer (f a (m s).1).0)
      → IsAnswer (run m f (λ e. reply (write_domain_error request_id e)) s).0
  unfolding run
  run-IsAnswer m f s h k = on_result-IsAnswer (m s).0 f (m s).1 h k

pub choose-IsAnswer :
    {S : Type 0} (b : Bool) (f g : Web S) (s : S)
    → IsAnswer (f s).0
    → IsAnswer (g s).0
    → IsAnswer ((if b then f else g) s).0
choose-IsAnswer true f g s hf hg = hf
choose-IsAnswer false f g s hf hg = hg
