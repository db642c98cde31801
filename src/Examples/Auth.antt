-- ===== src/Examples/Auth.antt =====
-- The sessions of one administrator, with numbers written as strokes, texts that encode themselves
-- and a signature that repeats the payload.
use Prim.Native.Char.{char}
use project_talos.Prelude.{
  ℕ, zero, suc, String, ◌<>◌, ◌≡◌, refl, ap, false, some, [], ◌∷◌, has_char, ◌==◌, string_eq, arith,
}
use project_talos.Domain.{User, ok}
use project_talos.Action.{pure}
use project_talos.Store.{Database}
use project_talos.Store.Users.{get_user_by_id}
use project_talos.Auth.{Users, Libraries, create_session, validate_session}
use project_talos.Auth.Sessions.{TokenLaws, validate-create_session, IsSigned, validated-IsSigned}
use project_talos.Auth.Api.{Login, user_shown, auth_middleware, web_auth_middleware}
use project_talos.Auth.Served.{IsGuarded, only_sessions_served}
use project_talos.Auth.Setup.{stored_users, AtMostOne, run_setups, setups_make_one_user}
use project_talos.Examples.Values.{sqlite, database}

abbrev strokes : ℕ → String
strokes zero = ""
strokes (suc n) = String.◌∷◌ (char 49 tt) (strokes n)

abbrev count_strokes : String → ℕ
count_strokes String.[] = 0
count_strokes (String.◌∷◌ _ s) = suc (count_strokes s)

abbrev libraries : Libraries Database
libraries = record {
  hash_password = λ password db. ok ("#" <> password);
  check_password = λ password hash. hash == "#" <> password;
  sign = λ payload. "signed " <> payload;
  encode = λ text. text;
  decode = some;
  format_int = strokes;
  parse_int = λ text. some (count_strokes text);
  now = λ db. db.clock;
  max_age = 60;
}

strokes-no-dot : (n : ℕ) → has_char b'.' (strokes n) ≡ false
strokes-no-dot zero = refl
strokes-no-dot (suc n) = strokes-no-dot n

strokes-no-colon : (n : ℕ) → has_char b':' (strokes n) ≡ false
strokes-no-colon zero = refl
strokes-no-colon (suc n) = strokes-no-colon n

count_strokes-strokes : (n : ℕ) → count_strokes (strokes n) ≡ n
count_strokes-strokes zero = refl
count_strokes-strokes (suc n) = ap suc (count_strokes-strokes n)

libraries-TokenLaws : TokenLaws libraries
libraries-TokenLaws = record {
  encoded_lacks = λ s h. h;
  decoded_encoded = λ s h. refl;
  number_without_dot = strokes-no-dot;
  number_without_colon = strokes-no-colon;
  parsed = λ n h. ap some (count_strokes-strokes n);
}

abbrev admin : User
admin = record {
  id = 1;
  username = "admin";
  password_hash = "#secret123";
  created_at = 0;
  updated_at = 0;
}

abbrev issued : Database
issued = record database { users = admin ∷ []; last_user_id = 1; clock = 1 }

abbrev users : Users Database
users = stored_users sqlite

abbrev token : String
token = create_session users libraries admin issued

abbrev later : Database
later = record issued { clock = 30 }

validate-create_session_example :
    (validate_session users libraries (create_session users libraries admin issued) later).0
    ≡ ok admin
unfolding get_user_by_id
validate-create_session_example =
    validate-create_session users libraries libraries-TokenLaws admin issued later (omega arith)
      (omega arith)

token_valid :
    (validate_session users libraries "1:1111.signed 1:1111" (record issued { clock = 3 })).0
    ≡ ok admin
unfolding validate_session get_user_by_id
token_valid = refl

validated-IsSigned_example :
    IsSigned users libraries "1:1111.signed 1:1111" (record issued { clock = 3 }) admin
validated-IsSigned_example =
    validated-IsSigned users libraries "1:1111.signed 1:1111" (record issued { clock = 3 }) admin
      token_valid

only_sessions_served_example :
    IsGuarded users libraries
      (λ u. pure (user_shown u.username))
      (some "1:1111.signed 1:1111")
      issued
      (auth_middleware users libraries
        (λ u. pure (user_shown u.username))
        (some "1:1111.signed 1:1111")
        issued)
    × IsGuarded users libraries
        (λ u. pure (user_shown u.username))
        (some "1:1111.signed 1:1111")
        issued
        (web_auth_middleware users libraries
          (λ u. pure (user_shown u.username))
          (some "1:1111.signed 1:1111")
          issued)
only_sessions_served_example =
    only_sessions_served users libraries (λ u. pure (user_shown u.username))
      (some "1:1111.signed 1:1111") issued

abbrev first_login : Login
first_login = record { username = "admin"; password = "secret123" }

abbrev second_login : Login
second_login = record { username = "eve"; password = "secret456" }

setups_make_one_user_example :
    AtMostOne (run_setups sqlite libraries (some first_login ∷ some second_login ∷ []) database)
setups_make_one_user_example =
    setups_make_one_user sqlite libraries (some first_login ∷ some second_login ∷ []) database
      (omega arith)
