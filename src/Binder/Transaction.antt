-- ===== src/Binder/Transaction.antt =====
-- Transactions of binder.c as far as they go: the ring of log entries and the transaction itself.
pub mod Log
pub mod Laws
use droid_kernal.Prelude.{
  ℕ, zero, suc, ◌+◌, ◌%◌, ◌^◌, Bool, true, false, not, Option, none, some, ◌&&◌, ◌||◌, ◌==◌, ltb,
  leb, if◌then◌else◌, bit_and, List, [], ◌∷◌, ◌++◌,
}
use droid_kernal.Binder.Types.{
  Uapi, Stats, Ret, zero_ret, err, e_fault, inc32, binder_supported_policy,
}
use droid_kernal.Binder.Node.{
  Node, Refs, Decrement, Target, target_is, dead_reply, binder_get_node_refs_for_txn,
  binder_dec_node_tmpref,
}

-- struct binder_transaction_log_entry, without the fields that nothing sets.
pub record Entry : Type 0 where
  pub debug_id : ℕ
  pub debug_id_done : ℕ
  pub call_type : ℕ
  pub from_proc : ℕ
  pub from_thread : ℕ
  pub target_handle : ℕ
  pub to_proc : ℕ
  pub to_node : ℕ
  pub data_size : ℕ
  pub offsets_size : ℕ

abbrev pub zero_entry : Entry
zero_entry = record {
  debug_id = 0;
  debug_id_done = 0;
  call_type = 0;
  from_proc = 0;
  from_thread = 0;
  target_handle = 0;
  to_proc = 0;
  to_node = 0;
  data_size = 0;
  offsets_size = 0;
}

-- struct binder_transaction_log: `cur` is a 32-bit count, and `entry` an array of 32 entries.
pub record TransactionLog : Type 0 where
  pub cur : ℕ
  pub full : Bool
  pub entry : ℕ → Entry

abbrev pub log_entries : ℕ
log_entries = 32

abbrev pub put_entry : ℕ → Entry → TransactionLog → TransactionLog
put_entry slot e log = record log { entry = λ k. if slot == k then e else log.entry k }

-- The slot of the new entry, which is cleared.
unfoldable pub binder_transaction_log_add : TransactionLog → ℕ × TransactionLog
binder_transaction_log_add log =
    let cur = inc32 log.cur in
    let slot = cur % log_entries in
    (
      slot,
      put_entry slot zero_entry (record log { cur = cur; full = leb log_entries cur || log.full }),
    )

-- struct binder_transaction_data, as far as it is read.
pub record TransactionData : Type 0 where
  pub handle : ℕ
  pub code : ℕ
  pub flags : ℕ
  pub data_size : ℕ
  pub offsets_size : ℕ

-- The object that a call allocates, with its sender if the call waits for a reply, and whether it
-- takes the sender's priority rather than the target's default. No list ever holds it.
pub record Transaction : Type 0 where
  pub debug_id : ℕ
  pub from : Option ℕ
  pub to_proc : ℕ
  pub code : ℕ
  pub flags : ℕ
  pub sender_euid : ℕ
  pub inherits : Bool

-- What a transaction works on: the log, the context manager's node, the counters, and the
-- transactions that were allocated.
pub record State : Type 0 where
  pub log : TransactionLog
  pub mgr : Option Refs
  pub stats : Stats
  pub made : List Transaction

-- The sender, and whether there is memory for a transaction.
pub record Sender : Type 0 where
  pub proc_pid : ℕ
  pub thread_pid : ℕ
  pub euid : ℕ
  pub policy : ℕ
  pub kzalloc_ok : Bool

pub owner_pid : Option ℕ → ℕ
owner_pid none = 0
owner_pid (some pid) = pid

module _ (u : Uapi) where
  one_way : TransactionData → Bool
  one_way td = not (bit_and td.flags u.tf_one_way == 0)

  call_type : Bool → TransactionData → ℕ
  unfolding one_way
  call_type reply td = if reply then 2 else if one_way td then 1 else 0

  pub first_entry : Sender → TransactionData → Bool → ℕ → Entry
  unfolding call_type
  first_entry who td reply id = record zero_entry {
    debug_id = id;
    call_type = call_type reply td;
    from_proc = who.proc_pid;
    from_thread = who.thread_pid;
    target_handle = td.handle;
    data_size = td.data_size;
    offsets_size = td.offsets_size;
  }

  -- From the target on; `none` is a fault on a null pointer, or the BUG for a negative count.
  pub to_target : Sender → TransactionData → ℕ → ℕ → Entry → Refs → State → Option State
  unfolding one_way owner_pid
  to_target who td id slot e target s =
      let pid = owner_pid target.node.proc in
      let sent = record e { to_node = target.node.debug_id; to_proc = pid } in
      let t : Transaction = record {
        debug_id = id;
        from = if one_way td then none else some who.thread_pid;
        to_proc = pid;
        code = td.code;
        flags = td.flags;
        sender_euid = who.euid;
        inherits = not (one_way td) && binder_supported_policy u who.policy;
      } in
      elim (binder_dec_node_tmpref target) [
        | none ↦ none
        | some d ↦
            if who.kzalloc_ok
            then some (record s {
              log = put_entry slot (record sent { debug_id_done = id }) s.log;
              mgr = some d.refs;
              stats = record s.stats {
                transactions_created = inc32 s.stats.transactions_created;
                complete_created = inc32 s.stats.complete_created;
              };
              made = t ∷ s.made;
            })
            else none
      ]

  -- The node that a call goes to; a reply, and a call to another handle, have none.
  pub target_of : TransactionData → Bool → State → Option Refs
  target_of td reply s =
      if reply
      then none
      else if td.handle == 0
      then elim s.mgr [
        | none ↦ none
        | some r ↦ elim (binder_get_node_refs_for_txn r) [
          | target_is t ↦ some t
          | dead_reply ↦ none
        ]
      ]
      else none

  unfoldable pub binder_transaction : Sender → TransactionData → Bool → State → Option State
  binder_transaction who td reply s =
      let id = inc32 s.stats.last_id in
      let (slot, added) = binder_transaction_log_add s.log in
      let e = first_entry who td reply id in
      let started = record s {
        stats = record s.stats { last_id = id };
        log = put_entry slot e added;
      } in
      elim (target_of td reply s) [
        | none ↦ none
        | some target ↦ to_target who td id slot e target started
      ]
