-- ===== src/Binder/Context/Manager.antt =====
-- binder_ioctl_set_ctx_mgr of binder.c, where it succeeds and where it does not.
use droid_kernal.Prelude.{
  ℕ, ◌≡◌, ◌≢◌, ◌⊎◌, inl, inr, refl, ap, eq→==, ◌∙◌, true, false, Option, none, some, arith,
}
use droid_kernal.Binder.Types.{Uapi, zero_ret, err, e_busy, e_perm, inc32}
use droid_kernal.Binder.Tree.{Tree, find, KeepsOrder}
use droid_kernal.Binder.Tree.Update.{find-put}
use droid_kernal.Binder.Node.{Node, Refs, Decrement, binder_put_node}
use droid_kernal.Binder.Proc.{Thread, Proc, FlatBinderObject, node_key, binder_of, binder_new_node}
use droid_kernal.Binder.Proc.Trees.{NodesInOrder}
use droid_kernal.Binder.Proc.Fresh.{binder_new_node-Fresh}
use droid_kernal.Binder.Context.{
  Context, with_refs, refs_of, set_manager, claim_manager, check_uid, binder_ioctl_set_ctx_mgr,
}

-- Dropping the count that made it leaves a new node as it was but for that count.
put_manager :
    (n : Node) (p : Proc)
    → n.tmp_refs ≡ 1
    → n.local_weak_refs ≡ 0
    → (d : Decrement) × (binder_put_node (refs_of n p) ≡ some d)
      × (d.refs ≡ record (refs_of n p) { node = record (with_refs n) { tmp_refs = 0 } })
unfolding binder_put_node
put_manager n p once no_weak = (
  record {
    free_node = false;
    erased = false;
    bug = false;
    refs = record (refs_of n p) { node = record (with_refs n) { tmp_refs = 0 } };
  },
  ground arith,
  refl,
)

-- The context has a manager, of process `pid` and user `euid`, whose node is the one that the
-- process finds at `ptr`, is known to the process, and has one count of each kind.
pub record Managed (euid pid ptr : ℕ) (c : Context) : Type 0 where
  pub refs : Refs
  pub mgr_is : c.state.mgr ≡ some refs
  pub proc_is : refs.node.proc ≡ some pid
  pub counted :
      (refs.node.local_strong_refs ≡ 1) × (refs.node.local_weak_refs ≡ 1) × (refs.node.tmp_refs ≡ 0)
  pub told : (refs.node.has_strong_ref ≡ true) × (refs.node.has_weak_ref ≡ true)
  pub shared : find node_key ptr c.proc.nodes ≡ some refs.node
  pub uid_is : c.mgr_uid ≡ some euid

module _ (u : Uapi) (balance_threads : Tree Thread → Tree Thread)
    (balance_nodes : Tree Node → Tree Node) (keeps_threads : KeepsOrder balance_threads)
    (keeps_nodes : KeepsOrder balance_nodes) where
  claim_manager-Managed :
      (euid addr : ℕ) (fbo : Option FlatBinderObject) (c : Context)
      → c.mgr_uid ≡ some euid
      → NodesInOrder c.proc
      → find node_key (binder_of fbo) c.proc.nodes ≡ none
      → (out : Context) × (claim_manager u balance_threads balance_nodes (some addr) fbo c
          ≡ some (zero_ret, out))
        × Managed euid c.proc.pid (binder_of fbo) out
  unfolding claim_manager set_manager
  claim_manager-Managed euid addr fbo c uid order new =
      let f =
        binder_new_node-Fresh u balance_threads balance_nodes keeps_threads keeps_nodes addr fbo
          c.proc c.state.stats order new in
      let p =
        (binder_new_node u balance_threads balance_nodes (some addr) fbo c.proc c.state.stats).1 in
      let (d, put, same) = put_manager f.node p f.held f.no_weak in
      rw (f.is_made, claim_manager)
        (rw (put, set_manager)
          (
            _,
            refl,
            record {
              refs = d.refs;
              mgr_is = refl;
              proc_is = ap (λ r. r.node.proc) same ∙ f.proc_is;
              counted = (
                ap (λ r. r.node.local_strong_refs) same ∙ ap inc32 f.no_strong,
                ap (λ r. r.node.local_weak_refs) same ∙ ap inc32 f.no_weak,
                ap (λ r. r.node.tmp_refs) same,
              );
              told = (ap (λ r. r.node.has_strong_ref) same, ap (λ r. r.node.has_weak_ref) same);
              shared = rw f.ptr_is (
                  find-put node_key (binder_of fbo) d.refs.node f.node p.nodes
                    (ap (λ r. r.node.ptr) same ∙ f.ptr_is) f.finds_it);
              uid_is = uid;
            },
          ))

  -- Where there is no manager yet, the uid is free or the caller's, there is memory and the process
  -- has no node at the address, the caller becomes the manager.
  pub binder_ioctl_set_ctx_mgr-Managed :
      (euid addr : ℕ) (fbo : Option FlatBinderObject) (c : Context)
      → c.state.mgr ≡ none
      → (c.mgr_uid ≡ none) ⊎ (c.mgr_uid ≡ some euid)
      → NodesInOrder c.proc
      → find node_key (binder_of fbo) c.proc.nodes ≡ none
      → (out : Context) × (binder_ioctl_set_ctx_mgr u balance_threads balance_nodes euid
            (some addr)
            fbo
            c
          ≡ some (zero_ret, out))
        × Managed euid c.proc.pid (binder_of fbo) out
  unfolding binder_ioctl_set_ctx_mgr check_uid
  binder_ioctl_set_ctx_mgr-Managed euid addr fbo c free (inl unset) order new =
      rw (free, binder_ioctl_set_ctx_mgr)
        (rw (unset, check_uid)
          (claim_manager-Managed euid addr fbo (record c { mgr_uid = some euid }) refl order new))
  binder_ioctl_set_ctx_mgr-Managed euid addr fbo c free (inr mine) order new =
      rw (free, binder_ioctl_set_ctx_mgr)
        (rw (mine, check_uid)
          (rw (eq→== euid euid refl) (claim_manager-Managed euid addr fbo c mine order new)))

  -- Setting the manager gives the error busy where there is a manager, and no permission for
  -- another uid, both without any change; no permission too where there is no memory for the node,
  -- although the uid has been claimed then.
  binder_ioctl_set_ctx_mgr_err :
      (euid : ℕ) (kzalloc : Option ℕ) (fbo : Option FlatBinderObject) (c : Context)
      → let set =
          λ (k : Option ℕ). binder_ioctl_set_ctx_mgr u balance_threads balance_nodes euid k fbo c in
        ((c.state.mgr ≢ none) → set kzalloc ≡ some (err e_busy, c))
        × ((other : ℕ)
            → c.state.mgr ≡ none
            → c.mgr_uid ≡ some other
            → other ≢ euid
            → set kzalloc ≡ some (err e_perm, c))
        × (c.state.mgr ≡ none
            → c.mgr_uid ≡ none
            → set none ≡ some (err e_perm, record c { mgr_uid = some euid }))
  unfolding binder_ioctl_set_ctx_mgr check_uid claim_manager binder_new_node
  binder_ioctl_set_ctx_mgr_err euid kzalloc fbo c = (
    (λ set. ground arith),
    (λ other free owned differs. ground arith),
    (λ free unset. ground arith),
  )
