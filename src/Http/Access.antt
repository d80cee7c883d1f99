-- ===== src/Http/Access.antt =====
-- Who may do what: the access seam of the handlers, and the token that an identity comes from.
use gowallet.Prelude.{
  ℕ, ◌+◌, ◌/◌, ◌<◌, String, ◌≡◌, ◌≢◌, ◌↔◌, refl, ap, sym, ◌∙◌, inl, inr, Option, none, some, List,
  [], ◌∷◌, Bool, true, false, not, ◌&&◌, ◌||◌, ok, err, arith, ◌==◌, eq_iff, Bool-cases,
  Result-cases,
}
use gowallet.Wallet.{Identity, member, role_text, sentinel, forbidden}
use gowallet.Wallet.Auth.{authorize, parse_role, parse_role_iff}
use gowallet.Http.Response.{Response, reply, on_result}
use gowallet.Http.Errors.{write_error, write_domain_error}
use gowallet.Http.Identity.{authorize_target, require_admin}
use gowallet.Http.Jwt.{Jwt, Claims}
use gowallet.Http.Auth.{issue_token, verify_token, claims_of, second, identity_of}
use gowallet.Http.Server.{Server, Context}
use gowallet.Http.Accounts.{get_account, get_balance, list_transactions, list_accounts}
use gowallet.Http.Transactions.{
  create_transaction, redeem_points, NewTransaction, NewRedemption, is_incomplete_body,
}
use gowallet.Http.Audit.{list_audit}
use gowallet.Http.Batch.{Line, ingest_batch}

abbrev pub refusal : String → Response
refusal request_id = write_error request_id 403 "forbidden" "you may not access this account"

abbrev pub is_valid_kind : String → Bool
is_valid_kind kind = kind == "earn" || kind == "spend"

pub authorize_target-other :
    (identity : Option Identity) (id : Identity) (target : String)
    → identity ≡ some id
    → id.role ≡ member
    → id.account_id ≢ target
    → authorize_target identity target ≡ err (sentinel forbidden)
unfolding authorize_target authorize
authorize_target-other identity id target known role other_target =
    rw known (ground (arith, role, eq_iff id.account_id target))

require_admin-none_or_member :
    (identity : Option Identity)
    → ((id : Identity) → identity ≡ some id → id.role ≡ member)
    → require_admin identity ≡ err (sentinel forbidden)
unfolding require_admin
require_admin-none_or_member none h = refl
require_admin-none_or_member (some id) h = rw (h id refl) refl

pub kind_accepted :
    (kind : String)
    → is_valid_kind kind ≡ true
    → not (kind == "earn") && not (kind == "spend") ≡ false
kind_accepted kind h = ground arith

module _ {S : Type 0} (srv : Server S) (ctx : Context) where
  -- A member who asks for another account gets the 403 envelope from every operation on an account,
  -- and the state stays as it was: GetAccount, GetBalance, ListTransactions, RedeemPoints with a
  -- decoded body, and CreateTransaction with a complete body whose kind is earn or spend.
  pub other_account_forbidden :
      (id : Identity) (target : String) (redemption : NewRedemption) (body : NewTransaction) (s : S)
      → ctx.identity ≡ some id
      → id.role ≡ member
      → id.account_id ≢ target
      → id.account_id ≢ body.account_id
      → is_incomplete_body body ≡ false
      → is_valid_kind body.kind ≡ true
      → (get_account srv ctx target s ≡ (refusal ctx.request_id, s))
        × (get_balance srv ctx target s ≡ (refusal ctx.request_id, s))
        × (list_transactions srv ctx target s ≡ (refusal ctx.request_id, s))
        × (redeem_points srv ctx target (some redemption) s ≡ (refusal ctx.request_id, s))
        × (create_transaction srv ctx (some body) s ≡ (refusal ctx.request_id, s))
  unfolding get_account get_balance list_transactions redeem_points create_transaction on_result
      reply write_domain_error
  other_account_forbidden id target redemption body s known role other_target other_body complete
        kind =
      let refused = authorize_target-other ctx.identity id target known role other_target in
      let refused_body =
        authorize_target-other ctx.identity id body.account_id known role other_body in
      (
        rw refused refl,
        rw refused refl,
        rw refused refl,
        rw refused refl,
        simp (complete, kind_accepted body.kind kind, refused_body) refl,
      )

  -- Without the admin role in the context, the account list, the audit log and the batch upload are
  -- refused with the 403 envelope, and the state stays as it was.
  pub admin_only_forbidden :
      (account_id : Option String) (file : Option (List Line)) (s : S)
      → ((id : Identity) → ctx.identity ≡ some id → id.role ≡ member)
      → (list_accounts srv ctx s ≡ (refusal ctx.request_id, s))
        × (list_audit srv ctx account_id s ≡ (refusal ctx.request_id, s))
        × (ingest_batch srv ctx file s ≡ (refusal ctx.request_id, s))
  unfolding list_accounts list_audit ingest_batch on_result reply write_domain_error
  admin_only_forbidden account_id file s no_admin =
      let refused = require_admin-none_or_member ctx.identity no_admin in
      (rw refused refl, rw refused refl, rw refused refl)

subject_present : (subject : String) → subject ≢ "" → (subject == "") ≡ false
subject_present subject h = ground (arith, eq_iff subject "")

-- A token that was issued to an identity with a subject is verified as that identity, until the
-- second that it expires in.
pub verify_token-issue_token :
    (jwt : Jwt) (secret raw : String) (now ttl later : ℕ) (id : Identity)
    → issue_token jwt secret now ttl id ≡ ok raw
    → id.account_id ≢ ""
    → later / second < (now + ttl) / second
    → verify_token jwt secret later raw ≡ ok id
unfolding issue_token verify_token claims_of
verify_token-issue_token jwt secret raw now ttl later id issued subject valid =
    elim (Result-cases (jwt.sign secret (claims_of now ttl id))) [
      | inr (text, failed) ↦ ground (arith, failed)
      | inl (token, signed) ↦
          let same : token ≡ raw = ground (arith, signed) in
          let parses =
            jwt.parse-sign secret raw (claims_of now ttl id) (later / second) ((now + ttl) / second)
              (rw same at signed) refl valid in
          let role = (parse_role_iff (role_text id.role) id.role).1 refl in
          let named = subject_present id.account_id subject in simp (parses, role, named) refl
    ]

-- The claims of a token that parses with the secret, by HS256 alone, name the identity.
pub record IsAccepted (jwt : Jwt) (secret : String) (now : ℕ) (raw : String) (id : Identity)
    : Type 0 where
  pub claims : Claims
  pub parses : jwt.parse ("HS256" ∷ []) secret (now / second) raw ≡ ok claims
  pub subject : claims.subject ≡ id.account_id
  pub named : id.account_id ≢ ""
  pub role : claims.role ≡ role_text id.role

-- What claims that pass `with_role` say.
claims_say :
    (jwt : Jwt) (c : Claims) (id : Identity)
    → identity_of jwt (ok c) ≡ ok id
    → (c.subject ≡ id.account_id) × (id.account_id ≢ "") × (c.role ≡ role_text id.role)
unfolding verify_token
claims_say jwt c id h = elim (Result-cases (parse_role c.role)) [
  | inr (e, unknown) ↦ ground (arith, unknown)
  | inl (role, known) ↦ elim (Bool-cases (c.subject == "")) [
    | inl empty ↦ ground (arith, known, empty)
    | inr named ↦
        let same : id.role ≡ role = ground (arith, known, named) in
        (
          ground (arith, known, named),
          ground (arith, known, named, eq_iff c.subject ""),
          rw same ((parse_role_iff c.role role).0 known),
        )
  ]
]

verify_token-IsAccepted :
    (jwt : Jwt) (secret raw : String) (now : ℕ) (id : Identity)
    → verify_token jwt secret now raw ≡ ok id
    → IsAccepted jwt secret now raw id
unfolding verify_token
verify_token-IsAccepted jwt secret raw now id h =
    elim (Result-cases (jwt.parse ("HS256" ∷ []) secret (now / second) raw)) [
      | inr (text, failed) ↦ ground (arith, failed)
      | inl (c, found) ↦
          let (subject, named, role) = claims_say jwt c id (ap (identity_of jwt) (sym found) ∙ h) in
          record { claims = c; parses = found; subject = subject; named = named; role = role }
    ]

IsAccepted-verified :
    (jwt : Jwt) (secret raw : String) (now : ℕ) (id : Identity)
    → IsAccepted jwt secret now raw id
    → verify_token jwt secret now raw ≡ ok id
unfolding verify_token
IsAccepted-verified jwt secret raw now id h =
    let named = subject_present id.account_id h.named in
    let known = (parse_role_iff h.claims.role id.role).1 h.role in
    simp (h.parses, known, h.subject, named) refl

-- A token is accepted as `id` if and only if it parses with the secret, where no algorithm but HS256
-- is allowed, to claims whose subject is the account of `id`, which is not empty, and whose role is
-- exactly the text of the role of `id`.
pub verify_token_iff :
    (jwt : Jwt) (secret raw : String) (now : ℕ) (id : Identity)
    → (verify_token jwt secret now raw ≡ ok id) ↔ IsAccepted jwt secret now raw id
verify_token_iff jwt secret raw now id =
    (verify_token-IsAccepted jwt secret raw now id, IsAccepted-verified jwt secret raw now id)
