-- ===== src/Store/Additions.antt =====
-- What the two statements that add an account or an audit row leave, and that it is valid.
use gowallet.Prelude.{
  true, Bool-cases, inl, inr, refl, ℕ, suc, ◌<◌, String, ◌≡◌, List, ◌∷◌, Option, ok, arith, All-map,
}
use gowallet.Prelude.Int.{ℤ}
use gowallet.Prelude.Sort.{HasFalling}
use gowallet.Wallet.{AuditOutcome}
use gowallet.Store.Db.{Db, Stamp, AccountRow, TransactionRow, AuditRow}
use gowallet.Store.Invariant.{IsValid, IsLegal}
use gowallet.Store.Queries

pub create_account-adds :
    (now : Stamp) (id name : String) (hash : Option String) (db db' : Db)
    → Queries.create_account now id name hash db ≡ ok (tt, db')
    → db' ≡ Queries.add_account (Queries.new_account now id name hash) db
unfolding Queries.create_account
create_account-adds now id name hash db db' e = ground arith

pub append_audit_entry-adds :
    (now : Stamp) (ref account_id kind : String) (points : ℤ) (outcome : AuditOutcome)
    (reason : String) (row : AuditRow) (db db' : Db)
    → Queries.append_audit_entry now ref account_id kind points outcome reason db ≡ ok (row, db')
    → db' ≡ Queries.add_audit_row row db
unfolding Queries.append_audit_entry
append_audit_entry-adds now ref account_id kind points outcome reason row db db' e = ground arith

-- The row has the next id.
append_audit_entry_id :
    (now : Stamp) (ref account_id kind : String) (points : ℤ) (outcome : AuditOutcome)
    (reason : String) (row : AuditRow) (db db' : Db)
    → Queries.append_audit_entry now ref account_id kind points outcome reason db ≡ ok (row, db')
    → row.id ≡ suc db.audit_seq
unfolding Queries.append_audit_entry
append_audit_entry_id now ref account_id kind points outcome reason row db db' e = ground arith

pub IsLegal-more :
    (a : AccountRow) (accounts : List AccountRow) (r : TransactionRow)
    → IsLegal accounts r
    → IsLegal (a ∷ accounts) r
IsLegal-more a accounts r h = record {
  allowed = h.allowed;
  positive = h.positive;
  known = ground (arith, h.known);
}

next_falls :
    (id seq : ℕ) (rows : List AuditRow)
    → id ≡ suc seq
    → HasFalling (λ r. r.id) (suc seq) rows
    → (id < suc (suc seq)) × HasFalling (λ r. r.id) id rows
next_falls id seq rows e h = rw e (omega arith, h)

-- A new account breaks nothing.
pub create_account-IsValid :
    (now : Stamp) (id name : String) (hash : Option String) (db db' : Db)
    → Queries.create_account now id name hash db ≡ ok (tt, db')
    → IsValid db
    → IsValid db'
create_account-IsValid now id name hash db db' e h =
    rw (create_account-adds now id name hash db db' e) (record {
      legal =
          All-map (IsLegal-more (Queries.new_account now id name hash) db.accounts) db.transactions
            h.legal;
      known_roles = (refl, h.known_roles);
      distinct_refs = h.distinct_refs;
      falling_ids = h.falling_ids;
      known_outcomes = h.known_outcomes;
      falling_audit = h.falling_audit;
      solvent = h.solvent;
    })

append_audit_entry_allowed :
    (now : Stamp) (ref account_id kind : String) (points : ℤ) (outcome : AuditOutcome)
    (reason : String) (row : AuditRow) (db db' : Db)
    → Queries.append_audit_entry now ref account_id kind points outcome reason db ≡ ok (row, db')
    → Queries.outcome_allowed row.outcome ≡ true
unfolding Queries.append_audit_entry
append_audit_entry_allowed now ref account_id kind points outcome reason row db db' e =
    elim (Bool-cases (Queries.outcome_allowed outcome)) [
      | inr refused ↦ ground (arith, refused)
      | inl allowed ↦ let same : row.outcome ≡ outcome = ground (arith, allowed) in rw same allowed
    ]

pub append_audit_entry-IsValid :
    (now : Stamp) (ref account_id kind : String) (points : ℤ) (outcome : AuditOutcome)
    (reason : String) (row : AuditRow) (db db' : Db)
    → Queries.append_audit_entry now ref account_id kind points outcome reason db ≡ ok (row, db')
    → IsValid db
    → IsValid db'
append_audit_entry-IsValid now ref account_id kind points outcome reason row db db' e h =
    rw (append_audit_entry-adds now ref account_id kind points outcome reason row db db' e)
      (record {
        legal = h.legal;
        known_roles = h.known_roles;
        distinct_refs = h.distinct_refs;
        falling_ids = h.falling_ids;
        known_outcomes = (
          append_audit_entry_allowed now ref account_id kind points outcome reason row db db' e,
          h.known_outcomes,
        );
        falling_audit =
            next_falls row.id db.audit_seq db.audit_log
              (append_audit_entry_id now ref account_id kind points outcome reason row db db' e)
              h.falling_audit;
        solvent = h.solvent;
      })
