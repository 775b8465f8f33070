-- ===== src/Tests/Rows.antt =====
-- The store at concrete inputs.
use mathlib.Core.List.{Perm}
use dmail.Prelude.{
  ℕ, zero, suc, ◌≡◌, refl, inl, inr, Bool, true, false, some, List, [], ◌∷◌, arith, ◌==◌, filter,
  All, ok,
}
use dmail.Prelude.Bytes.{Bytes, codes, eqb}
use dmail.Sql.{find}
use dmail.Sql.Keys.{IsUnique}
use dmail.Sql.Order.{IsOrdered}
use dmail.Store.{Message, Store, query, oldest_first}
use dmail.Store.Single.{get_message, get_thread}
use dmail.Store.Multi.{save_message_for_user, list_messages_for_user, count_unread_for_user}
use dmail.Store.Operations.{Write, run}
use dmail.Store.Integrity.{message_key, IsWellFormed, run-IsWellFormed}
use dmail.Store.Listing.{thread_of, get_thread-sorted}
use dmail.Store.Scope.{UuidChar, IsUuid}
use dmail.Tests.Toys.{apart}
use dmail.Store.Tenants.{list_messages_for_user-save_other}

abbrev pub mail : Bytes → Bytes → ℕ → Bool → Message
mail id folder timestamp is_read = record {
  id = id;
  folder = folder;
  sender_pubkey = codes "a";
  recipient_pubkey = codes "b";
  subject = codes "hi";
  body = codes "hello";
  timestamp = timestamp;
  is_read = is_read;
  reply_to_id = [];
  thread_id = codes "t";
  status = codes "sent";
}

abbrev pub store_of : List Message → Store
store_of messages = record {
  tables = record {
    messages = messages;
    contacts = [];
    keypair = [];
    names = [];
    users = [];
    pending_packets = [];
    next_packet_id = 1;
  };
  statements = 0;
  fault = λ n. false;
}

abbrev m1 : Message
m1 = mail (codes "1") (codes "inbox") 10 false

abbrev m2 : Message
m2 = mail (codes "2") (codes "inbox") 20 false

abbrev two_mails : Store
two_mails = store_of (m1 ∷ m2 ∷ [])

-- The second statement fails.
abbrev failing : Store
failing = record two_mails { fault = λ n. n == 1 }

two_mails-IsUnique : IsUnique message_key (two_mails.tables.messages)
unfolding find eqb
two_mails-IsUnique = ((apart (codes "2") (codes "1") refl, tt), (tt, tt))

failing-IsWellFormed : IsWellFormed failing.tables
failing-IsWellFormed = record {
  messages = two_mails-IsUnique;
  contacts = tt;
  keypair = tt;
  names = tt;
  user_ids = tt;
  usernames = tt;
  packets = tt;
}

abbrev some_writes : List Write
some_writes =
    Write.save_message (mail (codes "1") (codes "sent") 30 true)
    ∷ Write.delete_message (codes "2")
    ∷ Write.save_pending_packet 5 (codes "u") (codes "raw") []
    ∷ Write.mark_packet_processed 1
    ∷ []

run-IsWellFormed_example : IsWellFormed (run some_writes failing).tables
run-IsWellFormed_example = run-IsWellFormed some_writes failing failing-IsWellFormed

found_m1 : (get_message (codes "1") two_mails).0 ≡ ok (some m1)
unfolding get_message query eqb
found_m1 = refl

stored_m1 : find message_key (codes "1") two_mails.tables.messages ≡ some m1
unfolding find eqb
stored_m1 = refl

get_thread-sorted_example :
    (ms : List Message) × ((get_thread (codes "1") two_mails).0 ≡ ok ms)
    × Perm ms (filter (λ x. eqb x.thread_id (thread_of (codes "1") m1)) two_mails.tables.messages)
    × IsOrdered oldest_first ms
get_thread-sorted_example = get_thread-sorted two_mails (λ n. refl) (codes "1") m1 stored_m1

abbrev repeated : ℕ → ℕ → Bytes
repeated c zero = []
repeated c (suc n) = c ∷ repeated c n

repeated-UuidChar : (c n : ℕ) → UuidChar c → All UuidChar (repeated c n)
repeated-UuidChar c zero h = tt
repeated-UuidChar c (suc n) h = (h, repeated-UuidChar c n h)

abbrev pub alice : Bytes
alice = repeated b'a' 36

abbrev pub bob : Bytes
bob = repeated b'b' 36

pub alice-IsUuid : IsUuid alice
alice-IsUuid = record {
  size = refl;
  chars = repeated-UuidChar b'a' 36 (inr (inl (omega arith, omega arith)));
}

pub bob-IsUuid : IsUuid bob
bob-IsUuid = record {
  size = refl;
  chars = repeated-UuidChar b'b' 36 (inr (inl (omega arith, omega arith)));
}

list_messages_for_user-save_other_example :
    ((list_messages_for_user alice (codes "inbox") (save_message_for_user bob m1 two_mails).1).0
      ≡ (list_messages_for_user alice (codes "inbox") two_mails).0)
    × ((count_unread_for_user alice (codes "inbox") (save_message_for_user bob m1 two_mails).1).0
        ≡ (count_unread_for_user alice (codes "inbox") two_mails).0)
unfolding eqb
list_messages_for_user-save_other_example =
    list_messages_for_user-save_other two_mails (λ n. refl) alice (codes "inbox") bob m1
      alice-IsUuid bob-IsUuid (apart alice bob refl)
