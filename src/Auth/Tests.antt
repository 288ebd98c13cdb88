-- ===== src/Auth/Tests.antt =====
-- Tests of negotium/archive/auth_store.py with a transparent cryptography, and the theorems at them.
use Prim.Native.Char.{code}
use patch_machine.Prelude.{
  String, ◌≡◌, refl, true, Option, none, some, [], ◌∷◌, ◌==◌, find, any, leb, if◌then◌else◌, arith,
}
use patch_machine.Prelude.Int.{pos}
use patch_machine.Python.{
  Builtins, ok, get, as_dict, iterate_or_empty, iterate, traverse, str_or, bool_or_true, to_list,
  of_list, int_of, strip, lstrip, rstrip, is_space, all_chars, truthy, str_of,
}
use patch_machine.Auth.Records.{
  AuthUser, AccountRequest, pending, approved, auth_user_of, session_of, request_of,
  auth_user_to_dict, session_to_dict, request_to_dict,
}
use patch_machine.Auth.Passwords.{
  Crypto, Moment, aware, join, cut, split_dollar, hash_password, compare_parts, verify_password,
  hash_token, active_sessions, validate_user_id,
}
use patch_machine.Auth.Store.{
  AuthPayload, AuthFile, empty_payload, read_auth, write_auth, parse_auth, auth_rendered,
  decide_request, authenticate, resolve_token, request_account, may_log_in, new_session, decide,
}
use patch_machine.Auth.Documents.{read_auth-write_auth}
use patch_machine.Auth.History.{begin, after, requested, Sound, History-Sound}
use patch_machine.Auth.Tokens.{resolve_token-authenticate}

abbrev pub builtins : Builtins
builtins = record {
  repr = λ v. "";
  parse_int = λ v. ok (pos 200000);
  int_float = λ s. ok (pos 0);
  lower = λ s. s;
}

-- Every session ends at the same time.
abbrev moment : String → Option Moment
moment s = if s == "21:00" then some (aware 43200000005) else none

abbrev pub plain : Crypto
plain = record {
  pbkdf2_hmac = λ password salt rounds. ok (join password salt);
  b64encode = λ s. s;
  b64decode = ok;
  sha256 = λ s. s;
  isalnum = λ c. leb 97 (code c);
  isoformat = λ t. "21:00";
  fromisoformat = moment;
}

abbrev pub kim : AuthUser
kim = record {
  id = "kim";
  display_name = "Kim";
  password_hash = "pbkdf2_sha256$200000$salt$passwordsalt";
  active = true;
}

abbrev asks : AccountRequest
asks = record {
  id = "r1";
  user_id = "lee";
  display_name = "Lee";
  title = "dev";
  password_hash = "pbkdf2_sha256$200000$salt$passwordsalt";
  status = pending;
  created_at = "09:00";
  decided_at = "";
  decided_by = "";
}

abbrev pub one_user : AuthPayload
one_user = record { users = kim ∷ []; sessions = []; requests = asks ∷ [] }

abbrev pub logged_in_user : AuthPayload
logged_in_user = record one_user { sessions = new_session builtins plain "token" "kim" 5 ∷ [] }

one_user_read : read_auth builtins (write_auth one_user) ≡ ok one_user
one_user_read = read_auth-write_auth builtins one_user

pub kim_logs_in :
    authenticate builtins plain "kim" "password" "token" 5 (write_auth one_user)
    ≡ ok (some "token", write_auth logged_in_user)
unfolding authenticate read_auth write_auth parse_auth as_dict iterate_or_empty get auth_rendered
    traverse of_list may_log_in find auth_user_of str_or auth_user_to_dict bool_or_true
    verify_password compare_parts active_sessions cut hash_token split_dollar request_of
    request_to_dict session_of session_to_dict int_of iterate str_of to_list truthy join
kim_logs_in = refl

resolve_token-authenticate_example :
    (file : AuthFile) × (resolve_token builtins plain "token" 7 (write_auth logged_in_user)
      ≡ ok (some "kim", file))
unfolding find
resolve_token-authenticate_example =
    resolve_token-authenticate builtins plain "kim" "password" "token" 5 7 one_user
      (write_auth one_user) (write_auth logged_in_user) one_user_read kim_logs_in refl refl refl
      (omega arith)

abbrev logged_out : AuthFile
logged_out = write_auth one_user

abbrev nobody : Option String
nobody = none

abbrev granted : AccountRequest
granted = decide approved "10:00" "kim" asks

lee_is_granted :
    decide_request builtins "r1" approved "kim" "10:00" (write_auth one_user)
    ≡ ok (granted, write_auth (record one_user { requests = granted ∷ [] }))
unfolding decide_request read_auth write_auth parse_auth as_dict iterate_or_empty get auth_rendered
    traverse of_list may_log_in find auth_user_of str_or auth_user_to_dict bool_or_true
    verify_password compare_parts active_sessions cut hash_token split_dollar request_of
    request_to_dict session_of session_to_dict int_of iterate str_of to_list truthy join
lee_is_granted = refl

abbrev first_request : AuthFile
first_request = write_auth (record empty_payload { requests = asks ∷ [] })

lee_asks :
    request_account builtins plain "lee" "Lee" "dev" "password" "r1" "salt" "09:00" none
    ≡ ok (asks, first_request)
unfolding request_account validate_user_id all_chars strip lstrip rstrip is_space any hash_password
    read_auth write_auth parse_auth as_dict iterate_or_empty get auth_rendered traverse of_list
    may_log_in find auth_user_of str_or auth_user_to_dict bool_or_true verify_password compare_parts
    active_sessions cut hash_token split_dollar request_of request_to_dict session_of
    session_to_dict int_of iterate str_of to_list truthy join
lee_asks = refl

History-Sound_example : Sound builtins plain first_request
History-Sound_example =
    History-Sound builtins plain first_request
      (after begin (requested "lee" "Lee" "dev" "password" "r1" "salt" "09:00" asks lee_asks))
