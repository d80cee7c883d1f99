-- ===== src/Wallet/Raises.antt =====
-- Which sentinels the errors of a call wrap, and those of the services over the repositories'.
use gowallet.Prelude.{
  String, ◌≡◌, refl, ◌⊎◌, inl, inr, Option, none, some, List, [], ◌∷◌, Bool, true, false, Result,
  ok, err, Action, pure, fail, handle, continue, ◌>>=◌, ◌||◌, ◌==◌, if◌then◌else◌,
}
use gowallet.Wallet.Types.{Account, Transaction, Sentinel, Error, invalid_input}
use gowallet.Wallet.Repository.{Call, AccountRepository, TransactionRepository}
use gowallet.Wallet.Service
use gowallet.Wallet.Service.{is_incomplete, record_earn, record_spend, record_redeem}
use gowallet.Wallet.Service.Bcrypt.{Bcrypt, HashError, too_long, other}

-- The sentinel that an error wraps, at any depth.
abbrev pub root : Error → Option Sentinel
root (Error.sentinel s) = some s
root (Error.external _) = none
root (Error.wrap _ e) = root e

abbrev pub IsIn : Sentinel → List Sentinel → Type 0
IsIn s [] = ⊥
IsIn s (x ∷ xs) = (s ≡ x) ⊎ IsIn s xs

-- An error with the root `o` wraps no sentinel but those of the list.
abbrev pub IsRaised : List Sentinel → Option Sentinel → Type 0
IsRaised ss none = Unit
IsRaised ss (some s) = IsIn s ss

abbrev pub Only : {A : Type 0} → List Sentinel → Result Error A → Type 0
Only ss (ok a) = Unit
Only ss (err e) = IsRaised ss (root e)

-- In every state, a call fails only with errors that wrap these sentinels or none.
pub record Raises {S A : Type 0} (ss : List Sentinel) (m : Call S A) : Type 0 where
  pub at : (s : S) → Only ss (m s).0

-- What a call leaves if it succeeds.
abbrev pub Leaves : {S A : Type 0} → (S → Type 0) → Result Error A × S → Type 0
Leaves Q (ok _, s) = Q s
Leaves Q (err _, s) = Unit

IsRaised-more :
    (s : Sentinel) (ss : List Sentinel) (o : Option Sentinel) → IsRaised ss o → IsRaised (s ∷ ss) o
IsRaised-more s ss none h = tt
IsRaised-more s ss (some x) h = inr h

Only-more :
    {A : Type 0} (s : Sentinel) (ss : List Sentinel) (r : Result Error A)
    → Only ss r
    → Only (s ∷ ss) r
Only-more s ss (ok a) h = tt
Only-more s ss (err e) h = IsRaised-more s ss (root e) h

module _ {S : Type 0} {ss : List Sentinel} where
  pub pure-Raises : {A : Type 0} (a : A) → Raises {S = S} ss (pure a)
  pure-Raises a = record { at = λ s. tt }

  pub fail-Raises :
      {A : Type 0} (e : Error) → IsRaised ss (root e) → Raises {S = S} {A = A} ss (fail e)
  fail-Raises e h = record { at = λ s. h }

  pub if-Raises :
      {A : Type 0} (b : Bool) (m n : Call S A)
      → Raises ss m
      → Raises ss n
      → Raises ss (if b then m else n)
  if-Raises true m n hm hn = hm
  if-Raises false m n hm hn = hn

  continue-Raises :
      {E A B : Type 0} (r : Result E A) (f : A → Call S B) (g : E → Call S B)
      → ((a : A) → Raises ss (f a))
      → ((e : E) → Raises ss (g e))
      → Raises ss (continue f g r)
  continue-Raises (ok a) f g hf hg = hf a
  continue-Raises (err e) f g hf hg = hg e

  pub handle-Raises :
      {E A B : Type 0} (m : Action S E A) (f : A → Call S B) (g : E → Call S B)
      → ((a : A) → Raises ss (f a))
      → ((e : E) → Raises ss (g e))
      → Raises ss (handle m f g)
  handle-Raises m f g hf hg = record {
    at = λ s. let (r, s') = m s in (continue-Raises r f g hf hg).at s';
  }

  bound-Only :
      {A B : Type 0} (r : Result Error A) (f : A → Call S B) (s : S)
      → Only ss r
      → ((a : A) → Raises ss (f a))
      → Only ss (continue f fail r s).0
  bound-Only (ok a) f s h hf = (hf a).at s
  bound-Only (err e) f s h hf = h

  pub bind-Raises :
      {A B : Type 0} (m : Call S A) (f : A → Call S B)
      → Raises ss m
      → ((a : A) → Raises ss (f a))
      → Raises ss (m >>= f)
  bind-Raises m f hm hf = record { at = λ s. bound-Only (m s).0 f (m s).1 (hm.at s) hf }

pub Raises-more :
    {S A : Type 0} (s : Sentinel) {ss : List Sentinel} (m : Call S A)
    → Raises ss m
    → Raises (s ∷ ss) m
Raises-more s {ss} m h = record { at = λ w. Only-more s ss (m w).0 (h.at w) }

module _ {S : Type 0} {ss : List Sentinel} (txns : TransactionRepository S)
    (raises : (t : Transaction) → Raises ss (txns.record_transaction t)) where
  incomplete_or :
      (b : Bool) (t : Transaction)
      → Raises
          (invalid_input ∷ ss)
          (if b then fail (Error.sentinel invalid_input) else txns.record_transaction t)
  incomplete_or b t =
      if-Raises b _ _ (fail-Raises _ (inl refl)) (Raises-more invalid_input _ (raises t))

  pub record_earn-Raises : (t : Transaction) → Raises (invalid_input ∷ ss) (record_earn txns t)
  unfolding record_earn
  record_earn-Raises t = incomplete_or _ _

  pub record_spend-Raises : (t : Transaction) → Raises (invalid_input ∷ ss) (record_spend txns t)
  unfolding record_spend
  record_spend-Raises t = incomplete_or _ _

  pub record_redeem-Raises : (t : Transaction) → Raises (invalid_input ∷ ss) (record_redeem txns t)
  unfolding record_redeem
  record_redeem-Raises t = incomplete_or _ _

module _ {S : Type 0} {ss : List Sentinel} (bcrypt : Bcrypt) (accounts : AccountRepository S)
    (raises : (a : Account) (hash : String) → Raises ss (accounts.create_account a hash)) where
  store_hashed-Raises :
      (a : Account) (r : Result HashError String)
      → Raises (invalid_input ∷ ss) (Service.store_hashed bcrypt accounts a r)
  unfolding Service.store_hashed
  store_hashed-Raises a (ok hash) = Raises-more invalid_input _ (raises a hash)
  store_hashed-Raises a (err too_long) = fail-Raises _ (inl refl)
  store_hashed-Raises a (err (other text)) = fail-Raises _ tt

  pub create_account-Raises :
      (salt : String) (a : Account) (secret : String)
      → Raises (invalid_input ∷ ss) (Service.create_account bcrypt accounts salt a secret)
  unfolding Service.create_account
  create_account-Raises salt a secret =
      if-Raises _ _ _ (fail-Raises _ (inl refl))
        (if-Raises _ _ _ (Raises-more invalid_input _ (raises a "")) (store_hashed-Raises a _))

module _ {S : Type 0} (bcrypt : Bcrypt) (accounts : AccountRepository S) (a : Account)
    (Q : S → Type 0)
    (leaves : (hash : String) (s : S) → Leaves Q (accounts.create_account a hash s)) where
  store_hashed-Leaves :
      (r : Result HashError String) (s : S) → Leaves Q (Service.store_hashed bcrypt accounts a r s)
  unfolding Service.store_hashed
  store_hashed-Leaves (ok hash) s = leaves hash s
  store_hashed-Leaves (err too_long) s = tt
  store_hashed-Leaves (err (other text)) s = tt

  if-Leaves :
      {A : Type 0} (b : Bool) (m n : Call S A) (s : S)
      → Leaves Q (m s)
      → Leaves Q (n s)
      → Leaves Q ((if b then m else n) s)
  if-Leaves true m n s hm hn = hm
  if-Leaves false m n s hm hn = hn

  -- What the repository leaves of a stored account, the service leaves.
  pub create_account-Leaves :
      (salt secret : String) (s : S)
      → Leaves Q (Service.create_account bcrypt accounts salt a secret s)
  unfolding Service.create_account
  create_account-Leaves salt secret s =
      if-Leaves (a.id == "" || a.name == "") (fail (Error.sentinel invalid_input)) _ s tt (
        if-Leaves (secret == "") (accounts.create_account a "") _ s (leaves "" s)
          (store_hashed-Leaves (bcrypt.generate salt secret) s))

-- What a call gives if it succeeds.
abbrev pub Gives : {A : Type 0} → (A → Type 0) → Result Error A → Type 0
Gives V (ok a) = V a
Gives V (err e) = Unit
