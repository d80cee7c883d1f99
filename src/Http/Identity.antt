-- ===== src/Http/Identity.antt =====
-- internal/httpapi/identity.go: the access seam of every protected handler. The identity comes from
-- the request's context, where the authenticator put it; none is a request that passed no
-- authenticator.
use gowallet.Prelude.{String, Option, none, some, Result, ok, err}
use gowallet.Wallet.{Identity, Role, admin, member, Error, sentinel, forbidden}
use gowallet.Wallet.Auth.{authorize}

abbrev target_if : String → Result Error (Unit {0}) → Result Error String
target_if target (ok _) = ok target
target_if target (err e) = err e

-- `authorizeTarget`
unfoldable pub authorize_target : Option Identity → String → Result Error String
unfolding authorize
authorize_target none target = err (sentinel forbidden)
authorize_target (some id) target = target_if target (authorize id target)

unfoldable pub admin_only : Role → Result Error (Unit {0})
admin_only admin = ok tt
admin_only member = err (sentinel forbidden)

-- `requireAdmin`
unfoldable pub require_admin : Option Identity → Result Error (Unit {0})
unfolding admin_only
require_admin none = err (sentinel forbidden)
require_admin (some id) = admin_only id.role
