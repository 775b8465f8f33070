-- ===== src/Store/Operations.antt =====
-- Every operation that writes, as one step of the store, and what all of them keep.
use dmail.Prelude.{ℕ, List, [], ◌∷◌, Result}
use dmail.Prelude.Bytes.{Bytes}
use dmail.Store.{Message, NameEntry, Contact, User, Store, Error}
use dmail.Store.Single
use dmail.Store.Multi

-- The writes of both files, with the clock where they read it.
pub data Write : Type 0 where
  save_message : Message → Write
  mark_read : Bytes → Write
  delete_message : Bytes → Write
  update_message_status : Bytes → Bytes → Write
  save_contact : ℕ → Contact → Write
  delete_contact : Bytes → Write
  save_key_pair : Bytes → Bytes → Write
  save_name : NameEntry → Write
  create_user : ℕ → User → Write
  save_pending_packet : ℕ → Bytes → Bytes → Bytes → Write
  mark_packet_processed : ℕ → Write
  save_message_for_user : Bytes → Message → Write
  update_message_status_for_user : Bytes → Bytes → Bytes → Write

unfoldable pub write : Write → Store → Result Error (Unit {0}) × Store
write (Write.save_message m) = Single.save_message m
write (Write.mark_read id) = Single.mark_read id
write (Write.delete_message id) = Single.delete_message id
write (Write.update_message_status id status) = Single.update_message_status id status
write (Write.save_contact now c) = Single.save_contact now c
write (Write.delete_contact pubkey) = Single.delete_contact pubkey
write (Write.save_key_pair pubkey key) = Single.save_key_pair pubkey key
write (Write.save_name n) = Single.save_name n
write (Write.create_user now u) = Multi.create_user now u
write (Write.save_pending_packet now user raw sender) =
    Multi.save_pending_packet now user raw sender
write (Write.mark_packet_processed id) = Multi.mark_packet_processed id
write (Write.save_message_for_user user m) = Multi.save_message_for_user user m
write (Write.update_message_status_for_user user id status) =
    Multi.update_message_status_for_user user id status

-- A sequence of writes, whatever each of them returns.
unfoldable pub run : List Write → Store → Store
run [] s = s
run (c ∷ cs) s = run cs (write c s).1
