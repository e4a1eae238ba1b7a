-- ===== src/Binder/Init/Laws.antt =====
-- binder_init and binder_exit of binder.c: what the module leaves registered.
use droid_kernal.Prelude.{
  ℕ, suc, ◌≡◌, ◌≢◌, refl, ap, true, false, Option, none, some, Option-cases, inl, inr, List, length,
  arith,
}
use droid_kernal.Binder.Types.{Ret, zero_ret, err, Errno}
use droid_kernal.Binder.Transaction.{binder_transaction_log_add}
use droid_kernal.Binder.Alloc.Page.{Shrinker, binder_alloc_shrinker_init, binder_alloc_exit}
use droid_kernal.Binderfs.Names.{check_names}
use droid_kernal.Binderfs.Names.Laws.{device_names_total}
use droid_kernal.Binderfs.Mount.{Registry, register_binderfs, init_binderfs, binder_fs_exit}
use droid_kernal.Binder.Init.{
  Module, InitErrors, with_registry, reset_logs, binder_init, binder_exit,
}

-- Nothing of the module is registered; and everything is.
pub record Unloaded (m : Module) : Type 0 where
  pub no_shrinker : m.shrinker ≡ record { lru_ready = false; registered = false }
  pub no_registry : m.registry ≡ record { region = false; filesystem = false }

pub record Loaded (m : Module) : Type 0 where
  pub shrinker_on : m.shrinker ≡ record { lru_ready = true; registered = true }
  pub registry_on : m.registry ≡ record { region = true; filesystem = true }
  pub first_slot :
      ((binder_transaction_log_add m.transaction_log).0 ≡ 0)
      × ((binder_transaction_log_add m.transaction_log_failed).0 ≡ 0)

-- What a start that gave the result has left: all of the module, which its end takes back; or, on an
-- error, the shrinker alone, if that is not what has failed.
abbrev pub InitLaw : InitErrors → Ret → Module → Type 0
InitLaw e zero_ret m = Loaded m × Unloaded (binder_exit m)
InitLaw e (err x) m =
    (m.registry ≡ record { region = false; filesystem = false })
    × (e.list_lru_init ≡ none
        → e.register_shrinker ≡ none
        → m.shrinker ≡ record { lru_ready = true; registered = true })
    × (e.register_shrinker ≢ none → m.shrinker ≡ record { lru_ready = false; registered = false })
    × (e.list_lru_init ≢ none → m.shrinker ≡ record { lru_ready = false; registered = false })

Both : Ret → Registry → Type 0
Both zero_ret s = s ≡ record { region = true; filesystem = true }
Both (err x) s = s ≡ record { region = false; filesystem = false }

after_names : Ret → Option Errno → Option Errno → Registry → Option (Ret × Registry)
after_names r region_error fs_error s = elim r [
  | err e ↦ some (err e, s)
  | zero_ret ↦ some (register_binderfs region_error fs_error s)
]

-- The registrations: both are there or none.
after_names-Both :
    (r : Ret) (region_error fs_error : Option Errno) (s : Registry)
    → s ≡ record { region = false; filesystem = false }
    → (r' : Ret) × (s' : Registry) × (after_names r region_error fs_error s ≡ some (r', s'))
      × Both r' s'
unfolding after_names register_binderfs Both
after_names-Both (err e) region_error fs_error s off = (err e, s, refl, off)
after_names-Both zero_ret (some e) fs_error s off = (err e, s, refl, off)
after_names-Both zero_ret none (some e) s off = (err e, _, refl, ap close_region off)
  where
    close_region : Registry → Registry
    close_region x = record x { region = false }
after_names-Both zero_ret none none s off = (zero_ret, _, refl, refl)

init_binderfs-Both :
    (param : List ℕ) (region_error fs_error : Option Errno) (s : Registry)
    → s ≡ record { region = false; filesystem = false }
    → (r : Ret) × (s' : Registry) × (init_binderfs param region_error fs_error s ≡ some (r, s'))
      × Both r s'
unfolding init_binderfs after_names
init_binderfs-Both param region_error fs_error s off =
    let (names, all) = device_names_total (suc (length param)) param (omega arith) in
    rw (all, init_binderfs) (after_names-Both (check_names names) region_error fs_error s off)

end_of_init :
    (e : InitErrors) (r : Ret) (m : Module) (s : Registry)
    → Both r s
    → m.shrinker ≡ record { lru_ready = true; registered = true }
    → e.list_lru_init ≡ none
    → e.register_shrinker ≡ none
    → InitLaw e r (record (reset_logs m) { registry = s })
unfolding Both binder_exit binder_alloc_exit binder_fs_exit binder_transaction_log_add
end_of_init e zero_ret m s both on lru register = (
  record { shrinker_on = on; registry_on = both; first_slot = (refl, refl) },
  record { no_shrinker = refl; no_registry = refl },
)
end_of_init e (err x) m s both on lru register =
    (both, (λ a b. on), (λ ne. absurd (ne register)), λ ne. absurd (ne lru))

-- The start of the module ends whatever the list of names is. If it succeeds, everything is registered,
-- the first entry of each log goes to slot 0, and the end of the module takes all of it back. If it
-- fails, the file system and its numbers are not registered; the shrinker is not if it was what failed,
-- and else it stays registered although the module is not loaded.
pub binder_init-InitLaw :
    (param : List ℕ) (e : InitErrors) (m : Module)
    → Unloaded m
    → (r : Ret) × (m' : Module) × (binder_init param e m ≡ some (r, m')) × InitLaw e r m'
unfolding binder_init binder_alloc_shrinker_init
binder_init-InitLaw param e m off = elim (Option-cases e.list_lru_init) [
  | inr (x, lru) ↦ (
    err x,
    m,
    ground arith,
    (
      off.no_registry,
      (λ a b. absurd (ground arith)),
      (λ ne. off.no_shrinker),
      λ ne. off.no_shrinker,
    ),
  )
  | inl lru ↦ elim (Option-cases e.register_shrinker) [
    | inr (x, register) ↦ (
      err x,
      record m { shrinker = record m.shrinker { lru_ready = false } },
      ground arith,
      (
        off.no_registry,
        (λ a b. absurd (ground arith)),
        (λ ne. grind (arith, off.no_shrinker)),
        λ ne. absurd (ne lru),
      ),
    )
    | inl register ↦
        let on : Shrinker = record { lru_ready = true; registered = true } in
        let (r, s, ends, both) =
          init_binderfs-Both param e.alloc_chrdev_region e.register_filesystem m.registry
            off.no_registry in
        (
          r,
          record (reset_logs m) { shrinker = on; registry = s },
          rw (lru, register) (ap (with_registry (reset_logs (record m { shrinker = on }))) ends),
          end_of_init e r (record m { shrinker = on }) s both refl lru register,
        )
  ]
]
