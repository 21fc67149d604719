-- ===== src/Messaging/Queue/State.antt =====
-- messaging/account_queue.py: the state of a queue, and its configuration
-- (messaging/queue_config.py).
use teleautomation_messaging.Prelude.{
  ℕ, ◌*◌, ◌/◌, String, Bool, false, Option, none, some, List, [], leb, str_eq, if◌then◌else◌,
  length, exists_in, Dict,
}
use teleautomation_messaging.Messaging.Heapq.{HeapEntry}
use teleautomation_messaging.Messaging.Future.{Future, Error}
use teleautomation_messaging.Messaging.Task.{QueueTask}

-- messaging/queue_config.py. The watermark is the fraction `num / den`; a policy other than
-- "reject" and "drop_low" waits.
pub record QueueConfig : Type 0 where
  pub policy : String
  pub watermark_num : ℕ
  pub watermark_den : ℕ
  pub put_timeout : ℕ
  pub max_queue_size : ℕ

pub record Alert : Type 0 where
  pub level : String
  pub code : String

pub record Queue : Type 0 where
  pub config : QueueConfig
  pub account_id : String
  pub max_size : ℕ
  pub heap : List HeapEntry
  pub sequence : ℕ
  pub not_empty : Bool
  pub pending : Dict ℕ
  pub futures : List Future
  pub processing : Bool
  pub last_dequeue_at : ℕ
  pub rejected_total : ℕ
  pub dropped_total : ℕ
  pub overflow_alerted : Bool

-- `AccountQueue(account_id)`; `none` is the ValueError for an account that is not configured.
unfoldable pub new_queue : List String → QueueConfig → String → ℕ → Option Queue
new_queue accounts config account_id now =
    if exists_in (str_eq account_id) accounts
    then some (record {
      config = config;
      account_id = account_id;
      max_size = config.max_queue_size;
      heap = [];
      sequence = 0;
      not_empty = false;
      pending = [];
      futures = [];
      processing = false;
      last_dequeue_at = now;
      rejected_total = 0;
      dropped_total = 0;
      overflow_alerted = false;
    })
    else none

abbrev pub depth : Queue → ℕ
depth q = length q.heap

abbrev pub high_watermark : Queue → Bool
high_watermark q = leb (q.max_size * q.config.watermark_num / q.config.watermark_den) (depth q)

-- What happens at one await of the loop of `put`: the clock after the attempt, and what other
-- coroutines do to the queue until the next one.
pub record Turn : Type 0 where
  pub now : ℕ
  pub others : Queue → Queue

pub data PutOutcome : Type 0 where
  stored still_waiting : PutOutcome
  failed : Error → PutOutcome

-- How one wait of `get` ends: the event was set, at a time and after what other coroutines did, or
-- the timeout passed.
pub data Wait : Type 0 where
  woken : (now : ℕ) (others : Queue → Queue) → Wait
  timed_out : Wait

-- `gave_up` is the None of a timeout; `waits` where the waits go on.
pub data GetOutcome : Type 0 where
  got : QueueTask → GetOutcome
  gave_up waits : GetOutcome
