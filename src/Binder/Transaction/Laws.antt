-- ===== src/Binder/Transaction/Laws.antt =====
-- binder_transaction of binder.c, where it sends.
use droid_kernal.Prelude.{
  ℕ, ◌%◌, ◌^◌, ◌<◌, ◌≡◌, refl, ap, ◌∙◌, true, false, none, some, arith, ◌==◌, eq→==, if_true, ◌∷◌,
}
use droid_kernal.Binder.Types.{Uapi, inc32, dec32}
use droid_kernal.Binder.Node.{
  Refs, Decrement, binder_get_node_refs_for_txn, binder_dec_node_tmpref, binder_dec_node_nilocked,
  binder_dequeue_work_ilocked, enqueue_on_target,
}
use droid_kernal.Binder.Transaction.{
  Entry, TransactionLog, Transaction, TransactionData, State, Sender, log_entries, put_entry,
  owner_pid, target_of, to_target, first_entry, binder_transaction_log_add, binder_transaction,
}

-- The node of the context manager while a transaction holds it.
abbrev holding : Refs → Refs
holding r = record r {
  target_list = none;
  node = record r.node {
    local_strong_refs = inc32 r.node.local_strong_refs;
    tmp_refs = inc32 r.node.tmp_refs;
  };
  owner_tmp_ref = inc32 r.owner_tmp_ref;
}

target_of_mgr :
    (u : Uapi) (td : TransactionData) (s : State) (r : Refs) (pid : ℕ)
    → td.handle ≡ 0
    → s.mgr ≡ some r
    → r.node.proc ≡ some pid
    → target_of u td false s ≡ some (holding r)
unfolding target_of binder_get_node_refs_for_txn enqueue_on_target binder_dequeue_work_ilocked
target_of_mgr u td s r pid h m live = ground arith

release_mgr :
    (r : Refs)
    → r.node.tmp_refs < 2 ^ 31
    → (d : Decrement) × (binder_dec_node_tmpref (holding r) ≡ some d)
      × (d.refs.node ≡ record r.node { local_strong_refs = inc32 r.node.local_strong_refs })
unfolding binder_dec_node_tmpref binder_dequeue_work_ilocked
release_mgr r small = (
  binder_dec_node_nilocked
      (record (holding r) {
        node = record (holding r).node { tmp_refs = dec32 (inc32 r.node.tmp_refs) };
      })
      false true,
  ground arith,
  ground arith,
)

-- What a transaction with the data `td` to the context manager's node `r` of process `pid` has left.
pub record Sent (td : TransactionData) (r : Refs) (pid : ℕ) (s out : State) : Type 0 where
  pub node_kept :
      (m : Refs) × (out.mgr ≡ some m)
      × (m.node ≡ record r.node { local_strong_refs = inc32 r.node.local_strong_refs })
  pub id_is : out.stats.last_id ≡ inc32 s.stats.last_id
  pub logged :
      let e = out.log.entry (inc32 s.log.cur % log_entries) in
      (e.debug_id ≡ out.stats.last_id)
      × (e.debug_id_done ≡ out.stats.last_id)
      × (e.to_node ≡ r.node.debug_id)
      × (e.to_proc ≡ pid)
  pub one_made :
      (t : Transaction) × (out.made ≡ t ∷ s.made)
      × (t.to_proc ≡ pid)
      × (t.code ≡ td.code)
      × (t.flags ≡ td.flags)

put_entry_lem : (k : ℕ) (e : Entry) (log : TransactionLog) → (put_entry k e log).entry k ≡ e
put_entry_lem k e log = if_true (k == k) _ _ (eq→== k k refl)

-- The state in which the target of a transaction is found.
abbrev started : Uapi → Sender → TransactionData → State → State
started u who td s =
    let (slot, added) = binder_transaction_log_add s.log in
    record s {
      stats = record s.stats { last_id = inc32 s.stats.last_id };
      log = put_entry slot (first_entry u who td false (inc32 s.stats.last_id)) added;
    }

to_target-Sent :
    (u : Uapi) (who : Sender) (td : TransactionData) (s : State) (r : Refs) (pid : ℕ)
    → r.node.proc ≡ some pid
    → r.node.tmp_refs < 2 ^ 31
    → who.kzalloc_ok ≡ true
    → let (slot, added) = binder_transaction_log_add s.log in
      let id = inc32 s.stats.last_id in
      (out : State) × (to_target u who td id slot
          (first_entry u who td false id)
          (holding r)
          (started u who td s)
        ≡ some out)
      × Sent td r pid s out
unfolding to_target binder_transaction_log_add first_entry owner_pid
to_target-Sent u who td s r pid live small mem =
    let (d, put, same) = release_mgr r small in
    rw (put, to_target)
      (
        _,
        if_true who.kzalloc_ok _ _ mem,
        record {
          node_kept = (d.refs, refl, same);
          id_is = refl;
          logged =
              let slot = inc32 s.log.cur % log_entries in
              let sent : Entry = record (first_entry u who td false (inc32 s.stats.last_id)) {
                debug_id_done = inc32 s.stats.last_id;
                to_proc = owner_pid r.node.proc;
                to_node = r.node.debug_id;
              } in
              let found = put_entry_lem slot sent (started u who td s).log in
              (
                ap (λ e. e.debug_id) found,
                ap (λ e. e.debug_id_done) found,
                ap (λ e. e.to_node) found,
                ap (λ e. e.to_proc) found ∙ ap owner_pid live,
              );
          one_made = (_, refl, ap owner_pid live, refl, refl);
        },
      )

-- A call to handle 0 of a live context manager, with memory for a transaction, succeeds: it takes
-- the next id, completes the next entry of the log under that id, allocates one transaction, to the
-- process and with the code and the flags of the call, and leaves the manager's node as it was but for one strong count more.
pub binder_transaction-Sent :
    (u : Uapi) (who : Sender) (td : TransactionData) (s : State) (r : Refs) (pid : ℕ)
    → td.handle ≡ 0
    → s.mgr ≡ some r
    → r.node.proc ≡ some pid
    → r.node.tmp_refs < 2 ^ 31
    → who.kzalloc_ok ≡ true
    → (out : State) × (binder_transaction u who td false s ≡ some out) × Sent td r pid s out
unfolding binder_transaction
binder_transaction-Sent u who td s r pid h m live small mem =
    rw (target_of_mgr u td s r pid h m live, binder_transaction)
      (to_target-Sent u who td s r pid live small mem)
