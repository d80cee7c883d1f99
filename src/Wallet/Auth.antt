-- ===== src/Wallet/Auth.antt =====
-- internal/wallet/auth.go: roles and the access rule.
use gowallet.Prelude.{
  String, ◌≡◌, ◌↔◌, ◌⊎◌, Bool, true, false, Result, ok, err, arith, ◌==◌, eq_iff, if◌then◌else◌,
}
use gowallet.Wallet.Types.{
  Role, member, admin, role_text, Identity, Error, sentinel, invalid_input, forbidden,
}

-- `ParseRole`
unfoldable pub parse_role : String → Result Error Role
parse_role s =
    if s == "member"
    then ok member
    else if s == "admin"
    then ok admin
    else err (sentinel invalid_input)

abbrev pub is_admin : Role → Bool
is_admin admin = true
is_admin member = false

-- `Authorize`
unfoldable pub authorize : Identity → String → Result Error (Unit {0})
authorize id target =
    if is_admin id.role
    then ok tt
    else if id.account_id == target
    then ok tt
    else err (sentinel forbidden)

-- A role is parsed from exactly its own text: `parse_role` accepts `s` as the role `r` if and only
-- if `s` is the text of `r`.
pub parse_role_iff : (s : String) (r : Role) → (parse_role s ≡ ok r) ↔ (s ≡ role_text r)
unfolding parse_role
parse_role_iff s member = ground (arith, eq_iff s "member", eq_iff s "admin")
parse_role_iff s admin =
    ground (arith, eq_iff s "member", eq_iff s "admin", eq_iff "admin" "member")

-- The access rule: a caller may act on an account if and only if the caller is an admin or the
-- account is the caller's own; every refusal is ErrForbidden.
pub authorize_iff :
    (id : Identity) (target : String)
    → ((authorize id target ≡ ok tt) ↔ ((id.role ≡ admin) ⊎ (id.account_id ≡ target)))
      × ((authorize id target ≡ ok tt) ⊎ (authorize id target ≡ err (sentinel forbidden)))
unfolding authorize
authorize_iff id target = ground (arith, eq_iff id.account_id target)
