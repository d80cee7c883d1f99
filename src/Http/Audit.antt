-- ===== src/Http/Audit.antt =====
-- internal/httpapi/audit.go. The wire entry has the fields of the domain's.
use gowallet.Prelude.{String, Option}
use gowallet.Wallet.Audit.{list}
use gowallet.Http.Response.{audit_list, Web, reply, run, on_result, write_json}
use gowallet.Http.Errors.{write_domain_error}
use gowallet.Http.Identity.{require_admin}
use gowallet.Http.Server.{Server, Context}
use gowallet.Http.Accounts.{or_empty}

module _ {S : Type 0} (srv : Server S) (ctx : Context) where
  -- `ListAudit`, with the optional account_id of the query.
  unfoldable pub list_audit : Option String → Web S
  unfolding require_admin write_domain_error list
  list_audit account_id =
      on_result (require_admin ctx.identity)
        (λ _.
          run (list srv.audit (or_empty account_id))
            (λ out. reply (write_json 200 (audit_list out)))
            (λ e. reply (write_domain_error ctx.request_id e)))
        (λ e. reply (write_domain_error ctx.request_id e))
