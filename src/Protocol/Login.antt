-- ===== src/Protocol/Login.antt =====
-- BasicLoginProtocol of protocol/basicloginprotocol.h and AccountLoginProtocol of
-- protocol/accountloginprotocol.h and protocol/accountloginprotocol.cpp. What is called when an
-- asynchronous operation ends is a function of its own: `on_decrypted`, `on_account`.
pub mod Laws
use otservpp.Base.{
  ℕ, zero, suc, ◌+◌, ◌%◌, List, [], ◌∷◌, ◌++◌, Option, none, some, Bool, true, false, not, ◌||◌,
  ltb, ◌==◌, if◌then◌else◌, length, u8,
}
use otservpp.Message.In.{
  InMessage, Reader, ◌>>=◌, ◌>>◌, return, skip_bytes, get_u16, peek_raw_chunk,
}
use otservpp.Message.In.Standard.{get_string, get_xtea, rsa_decrypt}
use otservpp.Message.Out.{OutMessage, add_byte, put, string, long, short}
use otservpp.Message.Out.Standard.{with_type}
use otservpp.Protocol.Connection.{stop_receiving}
use otservpp.Protocol.Standard.{
  Session, Result, done, bad_packet, exception, undefined, Handler, ◌>=>◌, reads, on_connection,
  stop_connection, wrap_handler, set_xtea, standard_traits, send_and_stop,
}

pub data LoginError : Type 0 where
  no_error : LoginError
  bad_client_version : LoginError
  ip_banned : LoginError
  ip_disabled : LoginError
  empty_credentials : LoginError
  bad_credentials : LoginError
  game_not_running : LoginError

-- The tuples of hook::AccountLoginSucceedResult; the first is what `lexical_cast` makes of the number.
pub record Character : Type 0 where
  pub name : List ℕ
  pub world : List ℕ
  pub ip : ℕ
  pub port : ℕ

pub record SucceedResult : Type 0 where
  pub motd_id : List ℕ
  pub motd : List ℕ
  pub character_list : List Character
  pub premium_end : ℕ

abbrev pub error_byte : ℕ
error_byte = 0x0A

abbrev pub succeed_byte : ℕ
succeed_byte = 0x14

abbrev pub character_list_byte : ℕ
character_list_byte = 0x64

-- A std::int64_t.
pub data ℤ : Type 0 where
  pos : ℕ → ℤ
  negsuc : ℕ → ℤ

-- What the class uses of other code: the hooks, where `none` is an exception, `trim` of Boost, the
-- decryption of OpenSSL, and the encoding of messages. An account is a number.
pub record Data : Type 0 where
  pub succeed_hook : ℕ → Option SucceedResult
  pub error_hook : LoginError → Option (List ℕ)
  pub trim : List ℕ → List ℕ
  pub rsa : List ℕ → Option (List ℕ)
  pub encode : OutMessage → Option (List ℕ)

abbrev pub is_empty : List ℕ → Bool
is_empty [] = true
is_empty (c ∷ cs) = false

unfoldable pub add_character : Character → OutMessage → OutMessage
add_character c m =
    put (put (put (put m (string c.name)) (string c.world)) (long c.ip)) (short c.port)

unfoldable pub add_characters : List Character → OutMessage → OutMessage
add_characters [] m = m
add_characters (c ∷ cs) m = add_characters cs (add_character c m)

-- The message that sendCharacterList builds.
unfoldable pub character_list_message : SucceedResult → OutMessage
character_list_message res = add_characters res.character_list (
    add_byte (u8 (length res.character_list)) (
      add_byte character_list_byte
        (put (with_type succeed_byte) (string (res.motd_id ++ 10 ∷ [] ++ res.motd)))))

unfoldable pub validate_ip_and_version : Reader Bool
validate_ip_and_version m = (do skip_bytes 3; version ← get_u16; return true) m

module _ (D : Data) where
  abbrev pub LoginHandler : Type 0
  LoginHandler = Handler (standard_traits D.encode)

  -- What the error hook returns is not sent.
  unfoldable pub close_with_error : LoginError → LoginHandler
  close_with_error e s = elim (D.error_hook e) [ none ↦ stop_connection s | some text ↦ done s ]

  unfoldable pub send_character_list : ℕ → LoginHandler
  send_character_list account s = elim (D.succeed_hook account) [
    | none ↦ stop_connection s
    | some res ↦ elim (ltb 255 (length res.character_list)) [
      | true ↦ stop_connection s
      | false ↦ send_and_stop (character_list_message res) s
    ]
  ]

  -- The handler that onFirstMessage passes on to loadAccount.
  unfoldable pub on_login : LoginError → Option ℕ → LoginHandler
  on_login no_error (some account) = send_character_list account
  on_login no_error none = λ s. undefined
  on_login e account = close_with_error e

  -- What io::Account would call with the account; as it stands it calls nothing.
  unfoldable pub on_account : Option ℕ → LoginHandler
  on_account (some account) = wrap_handler (on_login no_error (some account))
  on_account none = wrap_handler (on_login bad_credentials none)

  unfoldable pub check_credentials : List ℕ → List ℕ → Bool
  check_credentials acc_name password =
      not (is_empty (D.trim acc_name) || is_empty (D.trim password))

  unfoldable pub load_account : List ℕ → List ℕ → LoginHandler
  load_account acc_name password s = elim (check_credentials acc_name password) [
    | true ↦ done s
    | false ↦ wrap_handler (on_login empty_credentials none) s
  ]

  -- What io::Account would call with the number of an account, for the handler of loadAccountId.
  unfoldable pub on_account_id : (LoginError → ℤ → LoginHandler) → ℤ → LoginHandler
  on_account_id handler (pos zero) = wrap_handler (handler bad_credentials (pos zero))
  on_account_id handler (pos (suc n)) = wrap_handler (handler no_error (pos (suc n)))
  on_account_id handler (negsuc n) = wrap_handler (handler bad_credentials (negsuc n))

  unfoldable pub load_account_id : (LoginError → ℤ → LoginHandler) → List ℕ → List ℕ → LoginHandler
  load_account_id handler acc_name password s = elim (check_credentials acc_name password) [
    | true ↦ done s
    | false ↦ wrap_handler (handler empty_credentials (pos 0)) s
  ]

  -- The texts are the arguments of one call, whose order of evaluation is the compiler's:
  -- `name_first` is whether the first is read first.
  unfoldable pub load_account_of_message : Bool → LoginHandler
  load_account_of_message name_first =
      reads get_string
        (λ a. reads get_string (λ b. if name_first then load_account a b else load_account b a))

  -- The handler of rsaDecrypt.
  unfoldable pub on_decrypted : Bool → Bool → LoginHandler
  on_decrypted name_first success = wrap_handler (elim success [
    | true ↦ reads get_xtea (λ key. set_xtea key >=> load_account_of_message name_first)
    | false ↦ stop_connection
  ])

  -- The end of the decryption, which reads again what onFirstMessage pointed it at.
  unfoldable pub on_rsa : Bool → LoginHandler
  on_rsa name_first = reads (rsa_decrypt D.rsa) (on_decrypted name_first)

  -- The part of onFirstMessage behind the validation, until the decryption is under way. The version
  -- is always taken to be valid, so that the error, which is not set, is never sent.
  unfoldable pub after_validation : Bool → LoginHandler
  after_validation true = reads (skip_bytes 12) (λ _. reads (peek_raw_chunk 128) (λ _. done))
  after_validation false = close_with_error no_error

  unfoldable pub on_first_message : LoginHandler
  on_first_message = on_connection stop_receiving >=> reads validate_ip_and_version after_validation
