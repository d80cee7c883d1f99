-- ===== src/Http/Isolation.antt =====
-- A member's requests about other accounts, through the whole chain from the header to the handler.
use gowallet.Prelude.{◌≡◌, ◌≢◌, refl, String, some, none, false, true, err, ◌==◌}
use gowallet.Wallet.{Identity, member, sentinel, forbidden}
use gowallet.Http.Identity.{authorize_target}
use gowallet.Http.Response.{reply, on_result}
use gowallet.Http.Errors.{write_domain_error}
use gowallet.Http.Access.{refusal, is_valid_kind, authorize_target-other, kind_accepted}
use gowallet.Http.Transactions.{is_incomplete_body}
use gowallet.Http.Transactions
use gowallet.Http.Accounts
use gowallet.Http.Server.{Server, Context}
use gowallet.Http.Router.{Request, Operation, operation, dispatch, is_public, serve}
use gowallet.Http.Serving.{Proves, proven_served}

-- The operation acts on the account `target`, with a body that gets as far as the access rule.
abbrev pub Targets : String → Operation → Type 0
Targets target (Operation.get_account id) = id ≡ target
Targets target (Operation.get_balance id) = id ≡ target
Targets target (Operation.list_transactions id) = id ≡ target
Targets target (Operation.redeem_points id (some body)) = id ≡ target
Targets target (Operation.create_transaction (some body)) =
    (body.account_id ≡ target)
    × (is_incomplete_body body ≡ false)
    × (is_valid_kind body.kind ≡ true)
Targets target _ = ⊥

module _ {S : Type 0} (srv : Server S) (ctx : Context) (id : Identity) (target : String) (s : S)
    (role : id.role ≡ member) (other_target : id.account_id ≢ target) where
  refused : authorize_target (some id) target ≡ err (sentinel forbidden)
  refused = authorize_target-other (some id) id target refl role other_target

  dispatch_refused :
      (op : Operation)
      → Targets target op
      → dispatch srv op (record ctx { identity = some id }) s ≡ (refusal ctx.request_id, s)
  unfolding dispatch Accounts.get_account Accounts.get_balance Accounts.list_transactions
      Transactions.redeem_points Transactions.create_transaction on_result reply write_domain_error
  dispatch_refused (Operation.get_account _) e = rw (e, refused) refl
  dispatch_refused (Operation.get_balance _) e = rw (e, refused) refl
  dispatch_refused (Operation.list_transactions _) e = rw (e, refused) refl
  dispatch_refused (Operation.redeem_points _ (some body)) e = rw (e, refused) refl
  dispatch_refused (Operation.create_transaction (some body)) (e, complete, kind) =
      rw (complete, kind_accepted body.kind kind, e, refused) refl
  dispatch_refused Operation.list_accounts e = elim e [ ]
  dispatch_refused (Operation.create_account _) e = elim e [ ]
  dispatch_refused (Operation.redeem_points _ none) e = elim e [ ]
  dispatch_refused (Operation.list_audit _) e = elim e [ ]
  dispatch_refused (Operation.ingest_batch _) e = elim e [ ]
  dispatch_refused Operation.get_health e = elim e [ ]
  dispatch_refused (Operation.login _) e = elim e [ ]
  dispatch_refused (Operation.create_transaction none) e = elim e [ ]

  -- A member's request, proven by its token, on a protected path, for an operation on another account:
  -- the account, its balance, its transactions, a redeem, or a recording with a complete body. It is
  -- answered with the 403 envelope and changes nothing. The server has a secret, and the request
  -- satisfies the contract.
  pub member_kept_out :
      (req : Request) (op : Operation)
      → req.target ≡ operation op
      → (srv.jwt_secret == "") ≡ false
      → req.satisfies_spec ≡ true
      → is_public req.path ≡ false
      → Proves srv req ctx id
      → Targets target op
      → serve srv req ctx s ≡ (refusal ctx.request_id, s)
  member_kept_out req op matched secret satisfies protected proven targets =
      rw (proven_served srv req ctx op s matched secret satisfies protected id proven)
        (dispatch_refused op targets)
