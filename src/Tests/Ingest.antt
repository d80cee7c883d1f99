-- ===== src/Tests/Ingest.antt =====
-- The batch, the error envelope and the configuration at concrete inputs.
use gowallet.Prelude.{◌≡◌, refl, String, none, List, [], ◌∷◌, ok, ◌==◌, if◌then◌else◌}
use gowallet.Prelude.Int.{pos}
use gowallet.Wallet.{Transaction, earn}
use gowallet.Config.{Config, load_config}
use gowallet.Http.Batch.{fields, broken, parse_row, process_lines, no_rows_yet}
use gowallet.Http.Batch.Counts.{IsBalanced, IsRow, process_lines-IsBalanced, parse_row-IsRow}
use gowallet.Tests.Data.{srv, start_world, june}

abbrev a_row : List String
a_row = "e-9" ∷ "member-123" ∷ "earn" ∷ " 25 " ∷ "2024-06-01T10:00:00Z" ∷ []

abbrev row_transaction : Transaction
row_transaction = record {
  ref = "e-9";
  account_id = "member-123";
  kind = earn;
  points = pos 25;
  reward = "";
  occurred_at = record { sec = june; nsec = 0 };
}

row_parses : parse_row a_row ≡ ok row_transaction
unfolding parse_row
row_parses = refl

parse_row-IsRow_example : IsRow a_row row_transaction
parse_row-IsRow_example = parse_row-IsRow a_row row_transaction row_parses

process_lines-IsBalanced_example :
    IsBalanced 3
      (process_lines srv (fields a_row ∷ broken ∷ fields a_row ∷ []) (no_rows_yet, start_world)).0
process_lines-IsBalanced_example =
    process_lines-IsBalanced srv (fields a_row ∷ broken ∷ fields a_row ∷ []) start_world

abbrev with_secret : String → String
with_secret key = if key == "GOWALLET_JWT_SECRET" then "s3cret" else ""

abbrev default_config : Config
default_config = record {
  addr = ":8080";
  db_path = "gowallet.db";
  spec_path = "api/openapi.yaml";
  jwt_secret = "s3cret";
  jwt_ttl = pos 3_600_000_000_000;
}

config_loads : load_config with_secret (λ _. none) ≡ ok default_config
unfolding load_config
config_loads = refl
