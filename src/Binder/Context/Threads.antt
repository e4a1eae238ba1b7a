-- ===== src/Binder/Context/Threads.antt =====
-- The threads of a process under binder_ioctl_set_ctx_mgr of binder.c.
use droid_kernal.Prelude.{
  ℕ, ◌≡◌, inl, inr, refl, sym, subst, Option, none, some, Option-cases, Bool-cases, ◌==◌, arith,
}
use droid_kernal.Binder.Types.{Uapi, Stats, Ret, err, e_busy, e_perm}
use droid_kernal.Binder.Tree.{Tree}
use droid_kernal.Binder.Node.{Node, binder_put_node}
use droid_kernal.Binder.Proc.{Thread, Proc, FlatBinderObject, binder_new_node}
use droid_kernal.Binder.Proc.Fresh.{binder_new_node-threads}
use droid_kernal.Binder.Context.{
  Context, refs_of, set_manager, claim_manager, check_uid, binder_ioctl_set_ctx_mgr,
}

-- Whatever the outcome is, if there is one, its threads are those of the tree `t`.
abbrev pub KeepsThreads : Tree Thread → Option (Ret × Context) → Type 0
KeepsThreads t none = Unit {0}
KeepsThreads t (some (r, c)) = c.proc.threads ≡ t

set_manager-KeepsThreads :
    (n : Node) (p : Proc) (stats : Stats) (c : Context)
    → KeepsThreads p.threads (set_manager n p stats c)
unfolding set_manager
set_manager-KeepsThreads n p stats c = elim (Option-cases (binder_put_node (refs_of n p))) [
  | inl e ↦ rw (e, set_manager) tt
  | inr (d, e) ↦ rw (e, set_manager) refl
]

module _ (u : Uapi) (balance_threads : Tree Thread → Tree Thread)
    (balance_nodes : Tree Node → Tree Node) where
  claim_manager-KeepsThreads :
      (kzalloc : Option ℕ) (fbo : Option FlatBinderObject) (c : Context)
      → KeepsThreads c.proc.threads (claim_manager u balance_threads balance_nodes kzalloc fbo c)
  unfolding claim_manager
  claim_manager-KeepsThreads kzalloc fbo c =
      let out = binder_new_node u balance_threads balance_nodes kzalloc fbo c.proc c.state.stats in
      let same =
        binder_new_node-threads u balance_threads balance_nodes kzalloc fbo c.proc c.state.stats in
      elim (Option-cases out.0) [
        | inl e ↦ rw (e, claim_manager) same
        | inr (n, e) ↦
            rw (e, claim_manager)
              (subst (λ t. KeepsThreads t (set_manager n out.1 out.2 c)) same
                (set_manager-KeepsThreads n out.1 out.2 c))
      ]

  pub binder_ioctl_set_ctx_mgr-KeepsThreads :
      (euid : ℕ) (kzalloc : Option ℕ) (fbo : Option FlatBinderObject) (c : Context)
      → KeepsThreads c.proc.threads
          (binder_ioctl_set_ctx_mgr u balance_threads balance_nodes euid kzalloc fbo c)
  unfolding binder_ioctl_set_ctx_mgr check_uid
  binder_ioctl_set_ctx_mgr-KeepsThreads euid kzalloc fbo c = elim (Option-cases c.state.mgr) [
    | inr (r, e) ↦ by_eq _ (some (err e_busy, c)) (ground arith) refl
    | inl free ↦ elim (Option-cases c.mgr_uid) [
      | inl unset ↦
          by_eq _
            (claim_manager u balance_threads balance_nodes kzalloc fbo
              (record c { mgr_uid = some euid }))
            (ground arith)
            (claim_manager-KeepsThreads kzalloc fbo (record c { mgr_uid = some euid }))
      | inr (uid, e) ↦ elim (Bool-cases (uid == euid)) [
        | inl same ↦
            by_eq _ (claim_manager u balance_threads balance_nodes kzalloc fbo c) (ground arith)
              (claim_manager-KeepsThreads kzalloc fbo c)
        | inr other ↦ by_eq _ (some (err e_perm, c)) (ground arith) refl
      ]
    ]
  ]
    where
      by_eq :
          (o o' : Option (Ret × Context))
          → o ≡ o'
          → KeepsThreads c.proc.threads o'
          → KeepsThreads c.proc.threads o
      by_eq o o' q k = subst (KeepsThreads c.proc.threads) (sym q) k
