-- ===== src/Daemon/Jobs.antt =====
-- pkg/daemon/daemon.go: the goroutines of SendMessage and RegisterName with the counter pendingPoW.
-- The goroutines that were started and have not ended are the jobs of the service's state; they end
-- one at a time and in any order.
use dmail.Prelude.{ℕ, ◌+◌, ◌-◌, Option, List, [], ◌∷◌, ◌++◌, Result, ok, err}
use dmail.Prelude.Bytes.{Bytes}
use dmail.Pb.{Wire}
use dmail.Crypto.{Primitives}
use dmail.Crypto.Keys.{KeyPair}
use dmail.Node.{Dht}
use dmail.Daemon.{Daemon, Error, send_message, send_task, register, register_task}

pub data Job : Type 0 where
  -- the recipient's address and key, the subject, the body and the id of the message replied to
  sending : Bytes → Bytes → Bytes → Bytes → Bytes → Job
  naming : Bytes → Job

pub record Service (D : Type 0) : Type 0 where
  pub daemon : Daemon D
  pub pending_pow : ℕ
  pub jobs : List Job

-- `d.pendingPoW.Add(1)` and `go func()`.
abbrev pub start_job : {D : Type 0} → Job → Service D → Service D
start_job job d = record d { pending_pow = d.pending_pow + 1; jobs = d.jobs ++ job ∷ [] }

module _ (u : Bytes → Bytes) (p : Primitives) (w : Wire) {D : Type 0} (dht : Dht D)
    (keys : KeyPair) where
  -- `SendMessage`
  unfoldable pub start_sending :
      Bytes → Bytes → Bytes → Bytes → Service D → Result Error (Unit {0}) × Service D
  start_sending recipient_addr subject body reply_to_id d =
      elim (send_message u p w dht keys recipient_addr) [
        | err e ↦ (err e, d)
        | ok recipient_pub ↦
            (ok tt, start_job (sending recipient_addr recipient_pub subject body reply_to_id) d)
      ]

  -- `RegisterName`
  unfoldable pub start_naming : Bytes → Service D → Result Error (Unit {0}) × Service D
  start_naming name d = elim (register u p w dht keys name) [
    | err e ↦ (err e, d)
    | ok _ ↦ (ok tt, start_job (naming name) d)
  ]

  -- The body of a goroutine, without its deferred calls.
  unfoldable pub job_body : ℕ → ℕ → Bytes → Option Bytes → Job → Daemon D → Daemon D
  job_body now saved message_id random
        (sending recipient_addr recipient_pub subject body reply_to_id) d =
      send_task u p w dht keys recipient_addr recipient_pub subject body reply_to_id now saved
        message_id random d
  job_body now saved message_id random (naming name) d = register_task u p w dht keys name now d

  -- A goroutine to its end, deferred calls included; `job` is in the list of the jobs.
  unfoldable pub finish_job :
      ℕ → ℕ → Bytes → Option Bytes → List Job → Job → List Job → Service D → Service D
  unfolding job_body
  finish_job now saved message_id random before job after d = record {
    daemon = job_body now saved message_id random job d.daemon;
    pending_pow = d.pending_pow - 1;
    jobs = before ++ after;
  }
