-- ===== src/Api.antt =====
-- pkg/daemon/api.go: what the HTTP handlers of both daemons share: the bodies that they decode and
-- encode as JSON, and the replies. `Option` stands for what `json.Decoder` makes of a request's body,
-- with `none` for an error. The text of an error is left out of its reply. net/http's ServeMux, which
-- finds the handler of a request and the values of its path and query, is not modelled: a request is
-- the pattern that it matched, with those values.
pub mod Single
pub mod Accounts
pub mod Mailbox
pub mod Site
pub mod Serve
pub mod Receipts
pub mod Access
pub mod Isolation
pub mod Enrolment
pub mod Queueing
pub mod Counting
use dmail.Prelude.{ℕ, List, [], if◌then◌else◌, Result, ok, err}
use dmail.Prelude.Bytes.{Bytes, codes, eqb}
use dmail.MultiTenant.Federated
use dmail.Store
use dmail.Store.{Message, NameEntry, Contact, Store}

pub record SendRequest : Type 0 where
  pub recipient : Bytes
  pub subject : Bytes
  pub body : Bytes
  pub reply_to_id : Bytes

pub record ContactRequest : Type 0 where
  pub pubkey : Bytes
  pub petname : Bytes

pub record StatusResponse : Type 0 where
  pub connected_peers : ℕ
  pub pending_pow_tasks : ℕ
  pub address : Bytes

-- The fields of a user that the directory shows.
pub record PublicUser : Type 0 where
  pub id : Bytes
  pub username : Bytes
  pub pubkey : Bytes
  pub created_at : ℕ

pub data Body : Type 0 where
  no_body : Body
  -- {"error": text}
  error_text : Body
  -- {"status": ...}
  accepted : Body
  message_list : List Message → Body
  one_message : Message → Body
  contact_list : List Contact → Body
  one_contact : Contact → Body
  name_list : List NameEntry → Body
  counted : ℕ → Body
  status_response : StatusResponse → Body
  -- the address and the mnemonic
  identity_of : Bytes → Bytes → Body
  -- {"status": "accepted", "name": name}
  registering : Bytes → Body
  -- the name and the address
  resolved_name : Bytes → Bytes → Body
  -- the token, the address, the mnemonic and the user id
  signed_up : Bytes → Bytes → Bytes → Bytes → Body
  -- the token, the address and the user id
  logged_in : Bytes → Bytes → Bytes → Body
  directory : List PublicUser → Body
  -- what the handlers of pkg/daemon/federation.go answer
  federation : Federated.Reply → Body

pub record Reply : Type 0 where
  pub status : ℕ
  pub body : Body

abbrev pub write_json : ℕ → Body → Reply
write_json status body = record { status = status; body = body }

abbrev pub write_error : ℕ → Reply
write_error status = write_json status error_text

abbrev pub no_content : Reply
no_content = write_json 204 no_body

-- `if folder == "" { folder = "inbox" }`
unfoldable pub or_inbox : Bytes → Bytes
or_inbox folder = if eqb folder [] then codes "inbox" else folder

-- A reply from what the store gave, and 500 for an error of the store.
unfoldable pub or_500 : {A : Type 0} → (A → Reply) → Result Store.Error A × Store → Reply × Store
or_500 reply (ok a, s) = (reply a, s)
or_500 reply (err _, s) = (write_error 500, s)
