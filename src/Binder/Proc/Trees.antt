-- ===== src/Binder/Proc/Trees.antt =====
-- The searches of binder.c for the thread of a task and the node of an object.
use droid_kernal.Prelude.{
  ℕ, ◌≡◌, ◌≢◌, refl, sym, ap, ◌∙◌, inl, inr, Option, none, some, Option-cases, true, false, ◌==◌,
  ne→==, eq→==, if◌then◌else◌, if_true, if_false, Bool,
}
use mathlib.Core.Option
use droid_kernal.Binder.Types.{Uapi, Stats, inc32}
use droid_kernal.Binder.Tree.{Tree, to_list, find, link, KeepsOrder}
use droid_kernal.Binder.Tree.Order.{Asc}
use droid_kernal.Binder.Tree.Update.{
  key-find, find-update, Asc-update, Asc-balance-link, find-balance-link,
}
use droid_kernal.Binder.Node.{Node, binder_inc_node_tmpref_ilocked}
use droid_kernal.Binder.Proc.{
  Thread, Proc, FlatBinderObject, thread_key, node_key, new_thread, init_node, insert_thread,
  insert_node, binder_of, cookie_of, flags_of, binder_get_thread_ilocked, binder_get_thread,
  binder_init_node_ilocked,
}

-- The threads in order of their task ids, no two alike; likewise the nodes by address.
abbrev pub ThreadsInOrder : Proc → Type 0
ThreadsInOrder p = Asc thread_key 0 (to_list p.threads)

abbrev pub NodesInOrder : Proc → Type 0
NodesInOrder p = Asc node_key 0 (to_list p.nodes)

-- What a search for the task's thread has made of the process.
pub record HasThread (pid : ℕ) (p : Proc) (out : Option Thread × Proc × Stats) : Type 0 where
  pub thread : Thread
  pub is_found : out.0 ≡ some thread
  pub pid_is : thread.pid ≡ pid
  pub in_order : ThreadsInOrder out.1
  pub finds_it : find thread_key pid out.1.threads ≡ some thread
  pub finds_others :
      (k : ℕ) → k ≢ pid → find thread_key k out.1.threads ≡ find thread_key k p.threads

-- What a search for the object's node has made of the process.
pub record HasNode (ptr refs : ℕ) (p : Proc) (out : Node × Proc × Stats) : Type 0 where
  pub ptr_is : out.0.ptr ≡ ptr
  pub held : out.0.tmp_refs ≡ refs
  pub in_order : NodesInOrder out.1
  pub finds_it : find node_key ptr out.1.nodes ≡ some out.0
  pub finds_others : (k : ℕ) → k ≢ ptr → find node_key k out.1.nodes ≡ find node_key k p.nodes

-- The temporary references that a node has already.
abbrev pub refs_before : Option Node → ℕ
refs_before none = 0
refs_before (some n) = n.tmp_refs

module _ (u : Uapi) (balance_threads : Tree Thread → Tree Thread)
    (balance_nodes : Tree Node → Tree Node) (keeps_threads : KeepsOrder balance_threads)
    (keeps_nodes : KeepsOrder balance_nodes) where
  get_thread_linked :
      (pid : ℕ) (p : Proc) (s : Stats)
      → find thread_key pid p.threads ≡ none
      → binder_get_thread u balance_threads balance_nodes pid true p s ≡ (
        some (new_thread u pid),
        record p { threads = balance_threads (link thread_key (new_thread u pid) p.threads) },
        record s { threads_created = inc32 s.threads_created },
      )
  unfolding binder_get_thread insert_thread
  get_thread_linked pid p s e =
      rw (missing false, binder_get_thread) (rw (missing true, binder_get_thread))
    where
      missing :
          (b : Bool)
          → binder_get_thread_ilocked u balance_threads balance_nodes pid b p s ≡ (
              if b
              then (let (t, p', s') = insert_thread u balance_threads balance_nodes pid p s in
                  (some t, p', s'))
              else (none, p, s))
      missing b = unfold binder_get_thread_ilocked in rw (e, binder_get_thread_ilocked)

  get_thread_old :
      (pid : ℕ) (p : Proc) (s : Stats) (b : Bool) (t : Thread)
      → find thread_key pid p.threads ≡ some t
      → binder_get_thread u balance_threads balance_nodes pid b p s ≡ (some t, p, s)
  unfolding binder_get_thread
  get_thread_old pid p s b t e = rw (old, binder_get_thread)
    where
      old : binder_get_thread_ilocked u balance_threads balance_nodes pid false p s ≡ (some t, p, s)
      old = unfold binder_get_thread_ilocked in rw (e, binder_get_thread_ilocked)

  -- With memory for a thread, the search for the current task's thread returns a thread of that
  -- task, which later searches find, and disturbs neither the order nor the other threads.
  pub binder_get_thread-HasThread :
      (pid : ℕ) (p : Proc) (s : Stats)
      → ThreadsInOrder p
      → HasThread pid p (binder_get_thread u balance_threads balance_nodes pid true p s)
  unfolding new_thread
  binder_get_thread-HasThread pid p s order = elim (Option-cases (find thread_key pid p.threads)) [
    | inl e ↦
        let t = new_thread u pid in
        let found =
          find-balance-link thread_key balance_threads keeps_threads t p.threads order e in
        rw (get_thread_linked pid p s e) (record {
          thread = t;
          is_found = refl;
          pid_is = refl;
          in_order = Asc-balance-link thread_key balance_threads keeps_threads t p.threads order e;
          finds_it = found pid ∙ if_true (pid == pid) _ _ (eq→== pid pid refl);
          finds_others = λ k ne. found k ∙ if_false (pid == k) _ _ (ne→== pid k (λ q. ne (sym q)));
        })
    | inr (t, e) ↦ rw (get_thread_old pid p s true t e) (record {
      thread = t;
      is_found = refl;
      pid_is = key-find thread_key pid p.threads t e;
      in_order = order;
      finds_it = e;
      finds_others = λ k ne. refl;
    })
  ]

  -- A second search gives the same thread and changes nothing, with or without memory.
  pub binder_get_thread_again :
      (pid : ℕ) (p : Proc) (s : Stats) (memory : Bool)
      → ThreadsInOrder p
      → let (t, p', s') = binder_get_thread u balance_threads balance_nodes pid true p s in
        binder_get_thread u balance_threads balance_nodes pid memory p' s' ≡ (t, p', s')
  binder_get_thread_again pid p s memory order =
      let h = binder_get_thread-HasThread pid p s order in
      let out = binder_get_thread u balance_threads balance_nodes pid true p s in
      get_thread_old pid out.1 out.2 memory h.thread h.finds_it
      ∙ ap (λ o. (o, out.1, out.2)) (sym h.is_found)

  -- The search for an object's node returns the node at that address, an old one or a new one, with
  -- one temporary reference more than before; later searches find it so, and neither the order nor
  -- the other nodes are disturbed.
  pub binder_init_node_ilocked-HasNode :
      (addr : ℕ) (fp : Option FlatBinderObject) (p : Proc) (s : Stats)
      → NodesInOrder p
      → HasNode
          (binder_of fp)
          (inc32 (refs_before (find node_key (binder_of fp) p.nodes)))
          p
          (binder_init_node_ilocked u balance_threads balance_nodes addr fp p s)
  unfolding binder_init_node_ilocked insert_node init_node binder_inc_node_tmpref_ilocked
  binder_init_node_ilocked-HasNode addr fp p s order =
      elim (Option-cases (find node_key (binder_of fp) p.nodes)) [
        | inl e ↦
            let n =
              init_node u p.pid addr (inc32 s.last_id) (binder_of fp) (cookie_of fp)
                (flags_of fp) in
            let found = find-balance-link node_key balance_nodes keeps_nodes n p.nodes order e in
            rw (e, binder_init_node_ilocked)
              (record {
                ptr_is = refl;
                held = refl;
                in_order = Asc-balance-link node_key balance_nodes keeps_nodes n p.nodes order e;
                finds_it =
                    found (binder_of fp)
                    ∙ if_true (binder_of fp == binder_of fp) _ _ (eq→== (binder_of fp) _ refl);
                finds_others = λ k ne.
                    found k
                    ∙ if_false (binder_of fp == k) _ _ (ne→== (binder_of fp) k (λ q. ne (sym q)));
              })
        | inr (n, e) ↦
            let found = λ (k : ℕ).
              find-update node_key (binder_of fp) k binder_inc_node_tmpref_ilocked p.nodes
                (λ x. refl) in
            rw (e, binder_init_node_ilocked)
              (record {
                ptr_is = key-find node_key (binder_of fp) p.nodes n e;
                held = refl;
                in_order =
                    Asc-update node_key (binder_of fp) binder_inc_node_tmpref_ilocked 0 p.nodes
                      (λ x. refl) order;
                finds_it =
                    found (binder_of fp)
                    ∙ if_true (binder_of fp == binder_of fp) _ _ (eq→== (binder_of fp) _ refl)
                    ∙ ap (Option.map binder_inc_node_tmpref_ilocked) e;
                finds_others = λ k ne.
                    found k
                    ∙ if_false (binder_of fp == k) _ _ (ne→== (binder_of fp) k (λ q. ne (sym q)));
              })
      ]
