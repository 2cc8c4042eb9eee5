-- ===== src/Examples/Rotating.antt =====
-- A refresh token that is rotated and written to the file.
use tempmail.Prelude.{◌≡◌, refl, subst, true, none, List, [], ◌∷◌, All, arith}
use tempmail.Prelude.Int.{pos}
use tempmail.Text.{Text, codes, trim_space, is_space}
use tempmail.Models.{ok}
use tempmail.EnvFile.{persist_refresh_token}
use tempmail.EnvFile.Persisted.{IsKey, IsRow}
use tempmail.Graph.{Remote, fetch_access_token, is_cached}
use tempmail.Rotation.{TokenCall, Rotation, on_rotated, rotate_all}
use tempmail.Rotation.Saved.{Holds, LeavesOne, GivesRows, rotate_all-Holds}
use tempmail.Examples.Fixtures.{ascii}

abbrev key : Text
key = codes "GRAPH_REFRESH_TOKEN"

abbrev rotating : Remote
rotating = record {
  exchange = λ r.
      ok (record {
        access_token = codes "EwB";
        refresh_token = codes "M.C2";
        expires_in = pos 3600;
      });
  fetch = λ t since. ok [];
}

abbrev calls : List TokenCall
calls =
    record {
      remote = rotating;
      now = pos 1;
      access = record { read_error = none; write_error = none };
    }
    ∷ []

abbrev before : Rotation
before = record {
  token = record { access_token = []; token_expiry = pos 0; refresh_token = codes "M.C1" };
  file = codes "A=1\nGRAPH_REFRESH_TOKEN=M.C1";
  saved = true;
}

key-IsKey : IsKey key
unfolding is_space
key-IsKey = (refl, omega arith)

calls-LeavesOne : All (LeavesOne key) calls
calls-LeavesOne = (λ e left h. absurd (cc h), tt)

calls-GivesRows : All GivesRows calls
calls-GivesRows = (
  λ r a h.
      let same : codes "M.C2" ≡ a.refresh_token = ground arith in subst IsRow same (omega arith),
  tt,
)

before-Holds : Holds key before.token.refresh_token before.file
unfolding trim_space is_space
before-Holds = refl

all_saved : (rotate_all key calls before).saved ≡ true
unfolding rotate_all on_rotated fetch_access_token is_cached persist_refresh_token
all_saved = refl

rotate_all-Holds_example :
    Holds key (rotate_all key calls before).token.refresh_token (rotate_all key calls before).file
rotate_all-Holds_example =
    rotate_all-Holds key calls before key-IsKey calls-LeavesOne calls-GivesRows before-Holds
      all_saved
