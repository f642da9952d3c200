-- ===== src/Validate.antt =====
-- The regular expressions and small validators of awgctl/core.py. `re.fullmatch` of a character
-- class with a repeat count is a test of every character and of the length.
use amneziawg_manager.Prelude.{
  ℕ, arith, refl, String, ◌≡◌, Bool, true, false, ◌&&◌, ◌||◌, List, [], ◌∷◌, leb, ◌==◌, all, length,
  codes, between, is_digit, is_alnum,
}
use amneziawg_manager.Result.{
  Result, ok, ◌>>=◌, ◌>>◌, require, or_raise, Ensures, bind-Ensures, ok-Ensures, require-eq-ok,
}
use amneziawg_manager.Value.{Value, str, as_text}

-- `[0-9a-f]`
abbrev is_hex : ℕ → Bool
is_hex c = is_digit c || between b'a' b'f' c

-- `[A-Za-z0-9_-]`
abbrev is_name_char : ℕ → Bool
is_name_char c = is_alnum c || c == b'_' || c == b'-'

-- `[A-Za-z0-9_.-]`
abbrev is_dotted_char : ℕ → Bool
is_dotted_char c = is_name_char c || c == b'.'

-- CLIENT_NAME_RE, on the characters
matches_client_name : List ℕ → Bool
matches_client_name [] = false
matches_client_name (c ∷ cs) = is_alnum c && all is_name_char cs && leb (length cs) 31

unfoldable pub is_client_name : String → Bool
unfolding matches_client_name
is_client_name s = matches_client_name (codes s)

-- TRANSACTION_ID_RE
unfoldable pub is_transaction_id : String → Bool
is_transaction_id s = all is_hex (codes s) && length (codes s) == 32

-- SHA256_RE
unfoldable pub is_sha256 : String → Bool
is_sha256 s = all is_hex (codes s) && length (codes s) == 64

-- BACKUP_NAME_RE, on the characters
matches_backup_name : List ℕ → Bool
matches_backup_name [] = false
matches_backup_name (c ∷ cs) = is_alnum c && all is_dotted_char cs && leb (length cs) 127

unfoldable pub is_backup_name : String → Bool
unfolding matches_backup_name
is_backup_name s = matches_backup_name (codes s)

-- INTERFACE_RE
unfoldable pub is_interface : String → Bool
is_interface s =
    all is_dotted_char (codes s) && leb 1 (length (codes s)) && leb (length (codes s)) 15

-- a text that passes the test, or the error
abbrev pub text_where : (String → Bool) → Value → String → Result String
text_where test v e = do s ← or_raise (as_text v) e; require (test s) e; ok s

unfoldable pub validate_client_name : Value → Result String
validate_client_name v =
    text_where is_client_name v "client name must match [A-Za-z0-9][A-Za-z0-9_-]{0,31}"

unfoldable pub validate_transaction_id : Value → Result String
validate_transaction_id v =
    text_where is_transaction_id v
      "transaction ID must be exactly 32 lowercase hexadecimal characters"

pub text_where-Ensures :
    (test : String → Bool) (v : Value) (e : String)
    → Ensures (λ s. test s ≡ true) (text_where test v e)
text_where-Ensures test v e = bind-Ensures (or_raise (as_text v) e) _ λ s _.
    bind-Ensures (require (test s) e) _ λ _ passed. ok-Ensures s (require-eq-ok (test s) e passed)

pub validate_transaction_id-Ensures :
    (v : Value) → Ensures (λ s. is_transaction_id s ≡ true) (validate_transaction_id v)
unfolding validate_transaction_id
validate_transaction_id-Ensures v = text_where-Ensures is_transaction_id v _

pub validate_client_name-Ensures :
    (v : Value) → Ensures (λ s. is_client_name s ≡ true) (validate_client_name v)
unfolding validate_client_name
validate_client_name-Ensures v = text_where-Ensures is_client_name v _

-- A text that is read is the text of the value.
pub text_where-read :
    (test : String → Bool) (s : String) (e : String) {t : String}
    → text_where test (str s) e ≡ ok t
    → t ≡ s
unfolding ◌>>=◌
text_where-read test s e h = ground arith

pub id-read : (s : String) {t : String} → validate_transaction_id (str s) ≡ ok t → t ≡ s
unfolding validate_transaction_id
id-read s h = text_where-read is_transaction_id s _ h

pub name-read : (s : String) {t : String} → validate_client_name (str s) ≡ ok t → t ≡ s
unfolding validate_client_name
name-read s h = text_where-read is_client_name s _ h

pub text_where-str :
    (test : String → Bool) (s : String) (e : String)
    → test s ≡ true
    → text_where test (str s) e ≡ ok s
unfolding ◌>>=◌
text_where-str test s e h = rw h

pub id-str : (s : String) → is_transaction_id s ≡ true → validate_transaction_id (str s) ≡ ok s
unfolding validate_transaction_id ◌>>=◌
id-str s h = rw h refl

pub name-str : (s : String) → is_client_name s ≡ true → validate_client_name (str s) ≡ ok s
unfolding validate_client_name ◌>>=◌
name-str s h = rw h refl
