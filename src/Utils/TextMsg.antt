-- ===== src/Utils/TextMsg.antt =====
-- Utils::sendTextMsg: the user message TextMsg.
use spmod.Common.{
  take-append-drop, ℕ, ◌≡◌, ◌≢◌, Bytes, List, [], ◌∷◌, ◌++◌, Option, none, some, arith, ◌==◌, take,
  drop, if◌then◌else◌, append-nil,
}
use spmod.Utils.View.{whole, substr, c_str, c_string, c_string_all, HasNoNul}

-- One message TextMsg, from MESSAGE_BEGIN to MESSAGE_END. Without an edict it is broadcast. The
-- format argument is always "%s".
pub record TextPacket : Type 0 where
  pub edict : Option ℕ
  pub msg_dest : ℕ
  pub message : Bytes

abbrev pub max_text_length : ℕ
max_text_length = 187

-- `message.substr(0, 187).data()`; `none` is the exception of `substr`. The message is an
-- `std::string` of the caller, so its view reaches up to the terminating zero. The message number is
-- a `static`, 0 where the game has no TextMsg.
unfoldable pub send_text_msg : ℕ → Bytes → ℕ → Option ℕ → Option (List TextPacket)
unfolding substr c_str
send_text_msg msg_id message msg_dest edict =
    if msg_id == 0 then some [] else elim (substr (whole message) 0 max_text_length) [
      | none ↦ none
      | some v ↦ some (record { edict = edict; msg_dest = msg_dest; message = c_str v } ∷ [])
    ]

-- A message with no zero byte is sent whole, however long it is: nothing is cut at 187 bytes.
pub send_text_msg_whole :
    (msg_id : ℕ) (message : Bytes) (msg_dest : ℕ) (edict : Option ℕ)
    → msg_id ≢ 0
    → HasNoNul message
    → send_text_msg msg_id message msg_dest edict
      ≡ some (record { edict = edict; msg_dest = msg_dest; message = message } ∷ [])
unfolding send_text_msg
send_text_msg_whole msg_id message msg_dest edict known clean = ground (arith, rest_of_storage)
  where
    rest_of_storage : c_string (take 187 message ++ (drop 187 message ++ [])) ≡ message
    rest_of_storage =
        rw (append-nil (drop 187 message), take-append-drop 187 message)
          (c_string_all message clean)
