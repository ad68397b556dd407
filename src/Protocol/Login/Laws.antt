-- ===== src/Protocol/Login/Laws.antt =====
-- The login: what a client is sent, and what becomes of it once receiving is stopped.
use otservpp.Base.{
  ℕ, ◌≡◌, ◌<◌, refl, sym, ap, ◌∙◌, subst, List, [], ◌∷◌, ◌++◌, Option, none, some, Bool, true,
  false, ltb, length, u8, arith, All, map,
}
use otservpp.Message.In.{
  InMessage, Reader, Outcome, ok, packet_exception, fault, skip_bytes, peek_raw_chunk, get_u16,
  return, ◌>>=◌,
}
use otservpp.Message.In.Laws.{IsWellFormed, remaining}
use otservpp.Message.Out.{OutMessage, create, get_buffer}
use otservpp.Message.Out.Standard.{with_type}
use otservpp.Message.Fields.{
  Field, number, text, IsField, kind, write_fields, Reads, read_fields, read_fields-write_fields,
}
use otservpp.Protocol.Connection.{is_stopped, stop_receiving}
use otservpp.Protocol.Standard.{Session, done, reads, on_connection}
use otservpp.Protocol.Standard.Laws.{
  Ends, IsDeaf, reads-IsDeaf, and_then-Ends, stop_receiving-IsDeaf, stopped, wrap_handler-stopped,
  stop_connection_lem,
}
use otservpp.Protocol.Login.{
  Character, SucceedResult, Data, add_character, add_characters, validate_ip_and_version,
  character_list_message, send_character_list, on_decrypted, on_account, on_first_message,
  after_validation,
}

-- The fields of a character, and of the whole message, in the order in which a client reads them.
abbrev pub character_fields : Character → List Field
character_fields c = text c.name ∷ text c.world ∷ number 4 c.ip ∷ number 2 c.port ∷ []

abbrev pub all_character_fields : List Character → List Field
all_character_fields [] = []
all_character_fields (c ∷ cs) = character_fields c ++ all_character_fields cs

abbrev pub character_list_fields : SucceedResult → List Field
character_list_fields res =
    number 1 0x14
    ∷ text (res.motd_id ++ 10 ∷ [] ++ res.motd)
    ∷ number 1 0x64
    ∷ number 1 (u8 (length res.character_list))
    ∷ all_character_fields res.character_list

write_fields-characters :
    (cs : List Character) (m : OutMessage)
    → write_fields (all_character_fields cs) m ≡ add_characters cs m
unfolding add_characters add_character
write_fields-characters [] m = refl
write_fields-characters (c ∷ cs) m = write_fields-characters cs _

character_list_message_lem :
    (res : SucceedResult)
    → write_fields (character_list_fields res) (create 8) ≡ character_list_message res
unfolding character_list_message with_type
character_list_message_lem res = write_fields-characters res.character_list _

-- The message that is sent after a login, wherever its bytes stand in a message that was received,
-- is read as the type, the message of the day, the number of characters, and the name, the world, the
-- address and the port of each of them, and nothing more, where every one of these fits its field.
pub read_fields-character_list_message :
    (res : SucceedResult) (m : InMessage) (rest : List ℕ)
    → All IsField (character_list_fields res)
    → IsWellFormed m
    → remaining m ≡ get_buffer (character_list_message res) ++ rest
    → Reads (read_fields (map kind (character_list_fields res))) m (character_list_fields res) rest
read_fields-character_list_message res m rest fits v e =
    read_fields-write_fields (character_list_fields res) m rest fits v
      (e ∙ ap (λ w. get_buffer w ++ rest) (sym (character_list_message_lem res)))

bind-ok :
    {A B : Type 0} (r : Reader A) (f : A → Reader B) (m m' : InMessage) (b : B)
    → (r >>= f) m ≡ ok b m'
    → (a : A) × (m1 : InMessage) × (r m ≡ ok a m1) × (f a m1 ≡ ok b m')
bind-ok {A = A} {B = B} r f m m' b e = go (r m) refl e
  where
    go :
        (o : Outcome A)
        → r m ≡ o
        → elim o [ ok a m1 ↦ f a m1 | packet_exception m1 ↦ packet_exception m1 | fault ↦ fault ]
          ≡ ok b m'
        → (a : A) × (m1 : InMessage) × (r m ≡ ok a m1) × (f a m1 ≡ ok b m')
    go (ok a m1) h k = (a, m1, h, k)
    go (packet_exception m1) h k = absurd (cc k)
    go fault h k = absurd (cc k)

module _ (D : Data) where
  -- A list of more than 255 characters is not sent: the connection, which has its peer, is stopped.
  pub send_character_list-long :
      (account : ℕ) (res : SucceedResult) (s : Session _)
      → D.succeed_hook account ≡ some res
      → 255 < length res.character_list
      → s.connection.attached ≡ true
      → s.connection.peer_is_connected ≡ true
      → send_character_list D account s ≡ done (stopped s)
  unfolding send_character_list
  send_character_list-long account res s e long attached there =
      let many : ltb 255 (length res.character_list) ≡ true = ground (arith, long) in
      rw (send_character_list, e, many) (stop_connection_lem s attached there)

  -- No version is refused.
  validate-accepts :
      (m m1 : InMessage) (valid : Bool) → validate_ip_and_version m ≡ ok valid m1 → valid ≡ true
  unfolding validate_ip_and_version
  validate-accepts m m1 valid e =
      let (_, m2, skipped, rest) =
        bind-ok (skip_bytes 3) (λ _. get_u16 >>= λ v. return true) m m1 valid e in
      let (_, m3, got, last) = bind-ok get_u16 (λ v. return true) m2 m1 valid rest in cc

  after_validation-IsDeaf :
      (valid : Bool) (s : Session _)
      → valid ≡ true
      → IsDeaf s
      → Ends IsDeaf (after_validation D valid s)
  unfolding after_validation
  after_validation-IsDeaf true s v deaf =
      reads-IsDeaf (skip_bytes 12) (λ _. reads (peek_raw_chunk 128) (λ _. done)) s
        (λ _ s1 e1 deaf1.
          reads-IsDeaf (peek_raw_chunk 128) (λ _. done) s1 (λ _ s2 e2 deaf2. deaf2) deaf1)
        deaf
  after_validation-IsDeaf false s v deaf = cc

  on_first_message-IsDeaf :
      (s : Session _) → s.connection.attached ≡ true → Ends IsDeaf (on_first_message D s)
  unfolding on_first_message
  on_first_message-IsDeaf s attached =
      and_then-Ends IsDeaf (on_connection stop_receiving)
        (reads validate_ip_and_version (after_validation D)) s (stop_receiving-IsDeaf s attached)
        (λ s1 deaf.
          reads-IsDeaf validate_ip_and_version (after_validation D) s1
            (λ valid s2 e.
              after_validation-IsDeaf valid s2 (validate-accepts s1.msg s2.msg valid e))
            deaf)

  on_account-stops :
      (account : Option ℕ) (s : Session _)
      → s.connection.attached ≡ true
      → s.connection.peer_is_connected ≡ true
      → is_stopped s.connection ≡ true
      → on_account D account s ≡ done (stopped s)
  unfolding on_account
  on_account-stops none s attached there ended = wrap_handler-stopped _ s attached there ended
  on_account-stops (some account) s attached there ended =
      wrap_handler-stopped _ s attached there ended

  -- When the first message was taken, nothing that a login waits for is of any use: whether the
  -- decryption succeeds or not, and whether there is an account or not, the connection is stopped
  -- and no message is put in its queue.
  pub login-stops :
      (s s1 : Session _)
      → s.connection.attached ≡ true
      → on_first_message D s ≡ done s1
      → ((name_first success : Bool) → on_decrypted D name_first success s1 ≡ done (stopped s1))
        × ((account : Option ℕ) → on_account D account s1 ≡ done (stopped s1))
  unfolding on_decrypted is_stopped
  login-stops s s1 attached taken =
      let deaf : IsDeaf s1 = subst (Ends IsDeaf) taken (on_first_message-IsDeaf s attached) in
      let closed : is_stopped s1.connection ≡ true = ground (arith, deaf.0) in
      (
        λ name_first success. wrap_handler-stopped _ s1 deaf.1 deaf.2 closed,
        λ account. on_account-stops account s1 deaf.1 deaf.2 closed,
      )
