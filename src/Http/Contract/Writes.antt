-- ===== src/Http/Contract/Writes.antt =====
-- The same of `CreateAccount`, `CreateTransaction` and `RedeemPoints`.
use gowallet.Prelude.{
  String, refl, inr, Option, none, some, List, [], ◌∷◌, Bool, true, false, not, ◌==◌, ◌&&◌,
}
use gowallet.Wallet.{
  Account, Transaction, Sentinel, not_found, account_exists, invalid_input, insufficient_balance,
  zero_time,
}
use gowallet.Wallet.Service
use gowallet.Wallet.Raises
use gowallet.Wallet.Raises.{
  Only, Raises, Leaves, if-Raises, record_earn-Raises, record_spend-Raises, record_redeem-Raises,
}
use gowallet.Http.Response.{write_json, transaction, redemption}
use gowallet.Http.Router.{Operation}
use gowallet.Http.Server.{Server, Context}
use gowallet.Http.Accounts
use gowallet.Http.Accounts.{NewAccount, or_empty, entry_of}
use gowallet.Http.Transactions
use gowallet.Http.Transactions.{
  NewTransaction, NewRedemption, is_incomplete_body, to_redeem, unstamped, status_of,
}
use gowallet.Http.Contract.Rules.{
  Fits, Declares, Answers, service_call-Answers, authorize_target-Answers, reply-Answers,
  if-Answers, run-Answers, run_leaving-Answers, domain_error-Answers, record_failed-Fits,
}
use gowallet.Store.Words.{KeepsKind}
use gowallet.Wallet.{Error, Kind, kind_text, earn, spend, Call}
use gowallet.Wallet.Raises.{Gives}
use gowallet.Wallet.Service.{record_earn, record_spend, is_incomplete}
use gowallet.Prelude.{Result, err, ok, ◌≡◌, fail, if◌then◌else◌}
use gowallet.Http.Contract.Rules.{run_giving-Answers}
use gowallet.Http.Contract.Enums.{transaction_kind_valid, ledger_entry_kind_valid}
use gowallet.Http.Contract.Handlers.{known_kind}
use gowallet.Http.Contract.Declared.{valid_create_transaction}
use gowallet.Http.Contract.Handlers.{ContractRepositories, AnswersOperation}
use gowallet.Http.Contract.Declared.{Declared, valid_redeem_points}
use gowallet.Http.Contract.Accounts.{create_account_201, create_account_400, create_account_409}
use gowallet.Http.Contract.Ledger.{
  visit_create_transaction, visit_redeem_points, create_transaction_200, create_transaction_201,
  create_transaction_400, create_transaction_403, create_transaction_404, create_transaction_409,
  redeem_points_200, redeem_points_201, redeem_points_400, redeem_points_403, redeem_points_404,
  redeem_points_409,
}

abbrev recording_errors : List Sentinel
recording_errors = invalid_input ∷ not_found ∷ insufficient_balance ∷ []

module _ {S : Type 0} (P : S → Type 0) (srv : Server S) (repositories : ContractRepositories P srv)
    (ctx : Context) where
  read_back-Answers :
      (body : NewAccount)
      → Answers
          (λ s. Only [] (srv.accounts.get_account body.account_id s).0)
          (Fits (Declared (Operation.create_account (some body))))
          (Accounts.read_back srv ctx body.account_id)
  unfolding Accounts.read_back
  read_back-Answers body =
      service_call-Answers _ ctx.request_id [] (Service.get_account srv.accounts body.account_id) _
        (λ s known. known) tt (λ acct. (create_account_201 acct (some _), refl, refl))

  pub create_account-Answers :
      (body : Option NewAccount)
      → AnswersOperation P srv repositories ctx
          (Operation.create_account body)
          (Accounts.create_account srv ctx body)
  unfolding Accounts.create_account Accounts.create
  create_account-Answers none = reply-Answers _ (inr (create_account_400 _, refl, refl))
  create_account-Answers (some body) =
      let a : Account = record { id = body.account_id; name = body.name; created_at = zero_time } in
      if-Answers _ _ _ (reply-Answers _ (inr (create_account_400 _, refl, refl))) (
        run_leaving-Answers _ (invalid_input ∷ account_exists ∷ [])
          (Service.create_account srv.bcrypt srv.accounts ctx.salt a (or_empty body.secret)) _ _
          (λ s _. (
            (Raises.create_account-Raises srv.bcrypt srv.accounts repositories.create_account
                  ctx.salt a _).at
                s,
            Raises.create_account-Leaves srv.bcrypt srv.accounts a _ (repositories.stored a)
                ctx.salt (or_empty body.secret) s,
          ))
          (λ _. read_back-Answers body)
          (domain_error-Answers _ ctx.request_id (invalid_input ∷ account_exists ∷ []) (
            (λ b. (create_account_400 b, refl, refl)),
            ((λ b. (create_account_409 b, refl, refl)), tt),
          )))

  by_kind-Raises :
      (kind : String) (t : Transaction)
      → Raises recording_errors (Transactions.by_kind srv ctx kind t)
  unfolding Transactions.by_kind
  by_kind-Raises kind t =
      if-Raises _ _ _ (record_earn-Raises srv.txns repositories.record_transaction t)
        (record_spend-Raises srv.txns repositories.record_transaction t)

  -- What the handler knows of the kind of what it answers.
  abbrev HasWord : Transaction × Bool → Type 0
  HasWord (stored, true) = transaction_kind_valid (kind_text stored.kind) ≡ true
  HasWord (stored, false) = ledger_entry_kind_valid (kind_text stored.kind) ≡ true

  stored-HasWord :
      (kind : Kind) (r : Result Error (Transaction × Bool))
      → transaction_kind_valid (kind_text kind) ≡ true
      → Gives (KeepsKind kind) r
      → Gives HasWord r
  stored-HasWord kind (err e) word h = tt
  stored-HasWord kind (ok (stored, true)) word h = rw h.0 word
  stored-HasWord kind (ok (stored, false)) word h = known_kind stored.kind h

  if-Gives :
      (b : Bool) (m n : Call S (Transaction × Bool)) (s : S)
      → Gives HasWord (m s).0
      → Gives HasWord (n s).0
      → Gives HasWord ((if b then m else n) s).0
  if-Gives true m n s hm hn = hm
  if-Gives false m n s hm hn = hn

  by_kind-Gives :
      (kind : String) (t : Transaction) (s : S)
      → P s
      → Gives HasWord (Transactions.by_kind srv ctx kind t s).0
  unfolding Transactions.by_kind record_earn record_spend
  by_kind-Gives kind t s p =
      if-Gives (kind == "earn") (record_earn srv.txns t) (record_spend srv.txns t) s
        (if-Gives (is_incomplete t) (fail (Error.sentinel invalid_input)) _ s tt
          (stored-HasWord earn _ refl (repositories.kept_kind (record t { kind = earn }) s p)))
        (if-Gives (is_incomplete t) (fail (Error.sentinel invalid_input)) _ s tt
          (stored-HasWord spend _ refl (repositories.kept_kind (record t { kind = spend }) s p)))

  recorded_declared :
      (created : Bool) (stored : Transaction)
      → HasWord (stored, created)
      → Declares visit_create_transaction valid_create_transaction
          (write_json (status_of created) (transaction stored.account_id (entry_of stored)))
  recorded_declared true t word = (
    create_transaction_201 (record { account_id = t.account_id; entry = entry_of t }),
    refl,
    word,
  )
  recorded_declared false t word = (
    create_transaction_200 (record { account_id = t.account_id; entry = entry_of t }),
    refl,
    word,
  )

  accept-Answers :
      (body : NewTransaction)
      → AnswersOperation P srv repositories ctx
          (Operation.create_transaction (some body))
          (Transactions.accept srv ctx body)
  unfolding Transactions.accept Transactions.recorded
  accept-Answers body =
      if-Answers (is_incomplete_body body) _ _
        (reply-Answers _ (inr (create_transaction_400 _, refl, refl)))
        (if-Answers (not (body.kind == "earn") && not (body.kind == "spend")) _ _
          (reply-Answers _ (inr (create_transaction_400 _, refl, refl)))
          (authorize_target-Answers _ ctx.request_id ctx.identity body.account_id _
            (λ b. (create_transaction_403 b, refl, refl))
            (λ id.
              run_giving-Answers HasWord _ recording_errors _ _ _
                (λ s _. (by_kind-Raises body.kind (unstamped body id)).at s)
                (by_kind-Gives body.kind (unstamped body id))
                (λ (stored, created) word.
                  reply-Answers _ (inr (recorded_declared created stored word)))
                (λ e i. reply-Answers _ (
                  record_failed-Fits (Declared (Operation.create_transaction (some body)))
                    recording_errors
                    (
                      (λ b. (create_transaction_400 b, refl, refl)),
                      (
                        (λ b. (create_transaction_404 b, refl, refl)),
                        ((λ b. (create_transaction_409 b, refl, refl)), tt),
                      ),
                    )
                    (λ b. (create_transaction_404 b, refl, refl)) ctx.request_id e i)))))

  pub create_transaction-Answers :
      (body : Option NewTransaction)
      → AnswersOperation P srv repositories ctx
          (Operation.create_transaction body)
          (Transactions.create_transaction srv ctx body)
  unfolding Transactions.create_transaction
  create_transaction-Answers none = reply-Answers _ (inr (create_transaction_400 _, refl, refl))
  create_transaction-Answers (some body) = accept-Answers body

  redeemed_declared :
      (created : Bool) (t : Transaction)
      → Declares visit_redeem_points valid_redeem_points (
          write_json
            (status_of created)
            (redemption t.account_id (record (entry_of t) { kind = "redeem" }) t.reward))
  redeemed_declared true t = (
    redeem_points_201 (record {
      account_id = t.account_id;
      entry = record (entry_of t) { kind = "redeem" };
      reward = t.reward;
    }),
    refl,
    refl,
  )
  redeemed_declared false t = (
    redeem_points_200 (record {
      account_id = t.account_id;
      entry = record (entry_of t) { kind = "redeem" };
      reward = t.reward;
    }),
    refl,
    refl,
  )

  pub redeem_points-Answers :
      (id : String) (body : Option NewRedemption)
      → AnswersOperation P srv repositories ctx
          (Operation.redeem_points id body)
          (Transactions.redeem_points srv ctx id body)
  unfolding Transactions.redeem_points Transactions.redeemed
  redeem_points-Answers id none = reply-Answers _ (inr (redeem_points_400 _, refl, refl))
  redeem_points-Answers id (some body) =
      authorize_target-Answers _ ctx.request_id ctx.identity id _
        (λ b. (redeem_points_403 b, refl, refl))
        (λ target.
          run-Answers _ recording_errors _ _ _
            (λ s _.
              (record_redeem-Raises srv.txns repositories.record_transaction
                  (to_redeem body target)).at
                s)
            (λ (stored, created). reply-Answers _ (inr (redeemed_declared created stored)))
            (λ e i. reply-Answers _ (
              record_failed-Fits (Declared (Operation.redeem_points id (some body)))
                recording_errors
                (
                  (λ b. (redeem_points_400 b, refl, refl)),
                  (
                    (λ b. (redeem_points_404 b, refl, refl)),
                    ((λ b. (redeem_points_409 b, refl, refl)), tt),
                  ),
                )
                (λ b. (redeem_points_404 b, refl, refl)) ctx.request_id e i)))
