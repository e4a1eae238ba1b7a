-- ===== src/Binder/Mmap/Laws.antt =====
-- binder_mmap of binder.c: which mappings are made, and what a process may map after it was opened.
use droid_kernal.Prelude.{
  ℕ, ◌+◌, ◌-◌, ◌^◌, ◌<◌, ◌≡◌, ◌≢◌, refl, sym, ap, ◌∙◌, subst, Bool, true, false, Option, none, some,
  List, [], ◌∷◌, arith, ◌==◌, eq→==, ne→==, if_true, if_false,
}
use droid_kernal.Binder.Types.{Uapi, Ret, zero_ret, err, e_inval, e_perm, e_busy}
use droid_kernal.Binder.Tree.{Tree, KeepsOrder}
use droid_kernal.Binder.Alloc.{
  Buffer, MapAnswers, MapState, binder_alloc_mmap_handler, binder_alloc_vma_close,
}
use droid_kernal.Binder.Alloc.Mapping.{
  Unmapped, Mapped, Mapped-ne, binder_alloc_mmap_handler-Mapped, binder_alloc_mmap_handler_err,
}
use droid_kernal.Binder.Open.{OpenProc, Opener, Driver, opened, binder_open}
use droid_kernal.Binder.Open.Laws.{Counted, OpenLaw, binder_open-Counted}
use droid_kernal.Binder.Mmap.{Area, prepare_area, binder_vma_close, with_area, binder_mmap}

-- An area that its owner can neither write nor be allowed to write, and that a child does not get.
pub record ReadOnly (pid : ℕ) (area : Area) : Type 0 where
  pub no_write : area.vm_write ≡ false
  pub never_write : area.vm_maywrite ≡ false
  pub no_copy : area.vm_dontcopy ≡ true
  pub mixed : area.vm_mixedmap ≡ true
  pub ops_set : area.has_ops ≡ true
  pub owner : area.private_pid ≡ some pid

-- What may happen to a mapping: an area is closed, or a task of the group `leader` tries to map another.
pub data Attempt : Type 0 where
  closes : Attempt
  maps : ℕ → MapAnswers → Area → Attempt

abbrev state_after : MapState → Option (Ret × Area × MapState) → MapState
state_after s none = s
state_after s (some (r, area, s')) = s'

unfoldable pub after_attempt : (Tree Buffer → Tree Buffer) → ℕ → Attempt → MapState → MapState
after_attempt balance tsk closes s = binder_vma_close s
after_attempt balance tsk (maps leader k area) s =
    state_after s (binder_mmap balance tsk leader k area s)

unfoldable pub after_attempts : (Tree Buffer → Tree Buffer) → ℕ → List Attempt → MapState → MapState
after_attempts balance tsk [] s = s
after_attempts balance tsk (a ∷ later) s =
    after_attempts balance tsk later (after_attempt balance tsk a s)

module _ (balance : Tree Buffer → Tree Buffer) (keeps : KeepsOrder balance) where
  -- The area that goes to the allocator.
  prepare_area-ReadOnly :
      (pid : ℕ) (area : Area) → area.vm_write ≡ false → ReadOnly pid (prepare_area pid area)
  unfolding prepare_area
  prepare_area-ReadOnly pid area w = record {
    no_write = w;
    never_write = refl;
    no_copy = refl;
    mixed = refl;
    ops_set = refl;
    owner = refl;
  }

  allowed :
      (tsk : ℕ) (k : MapAnswers) (area : Area) (s : MapState)
      → area.vm_write ≡ false
      → binder_mmap balance tsk tsk k area s
        ≡ with_area (prepare_area s.alloc.pid area) (binder_alloc_mmap_handler balance k area.vma s)
  unfolding binder_mmap
  allowed tsk k area s w =
      if_true (tsk == tsk) _ _ (eq→== tsk tsk refl) ∙ if_false area.vm_write _ _ w

  -- The first mapping of a read-only area by the process itself.
  first_mapping :
      (tsk : ℕ) (k : MapAnswers) (area : Area) (s : MapState) (pages at : ℕ)
      → Unmapped s.alloc
      → area.vm_write ≡ false
      → area.vma.vm_start < area.vma.vm_end
      → area.vma.vm_end < 2 ^ 64
      → k.kcalloc ≡ some pages
      → k.kzalloc ≡ some at
      → (s' : MapState) × (binder_mmap balance tsk tsk k area s
          ≡ some (zero_ret, prepare_area s.alloc.pid area, s'))
        × Mapped area.vma s'.alloc
  first_mapping tsk k area s pages at un w up top has_pages has_struct =
      let done =
        binder_alloc_mmap_handler-Mapped balance keeps k area.vma s pages at un up top has_pages
          has_struct in
      (
        done.0,
        allowed tsk k area s w ∙ ap (with_area (prepare_area s.alloc.pid area)) done.1,
        done.2,
      )

  attempt_keeps :
      (tsk : ℕ) (a : Attempt) (s : MapState)
      → s.alloc.buffer_size ≢ 0
      → (after_attempt balance tsk a s).alloc.buffer_size ≢ 0
  unfolding after_attempt binder_vma_close binder_alloc_vma_close binder_mmap
  attempt_keeps tsk closes s h = h
  attempt_keeps tsk (maps leader k area) s h =
      let busy = (binder_alloc_mmap_handler_err balance keeps k area.vma s).0 h in
      ground (arith, busy)

  attempts_keep :
      (tsk : ℕ) (later : List Attempt) (s : MapState)
      → s.alloc.buffer_size ≢ 0
      → (after_attempts balance tsk later s).alloc.buffer_size ≢ 0
  unfolding after_attempts
  attempts_keep tsk [] s h = h
  attempts_keep tsk (a ∷ later) s h =
      attempts_keep tsk later (after_attempt balance tsk a s) (attempt_keeps tsk a s h)

  later_mapping :
      (tsk : ℕ) (k : MapAnswers) (area : Area) (later : List Attempt) (s : MapState)
      → s.alloc.buffer_size ≢ 0
      → area.vm_write ≡ false
      → let now = after_attempts balance tsk later s in
        binder_mmap balance tsk tsk k area now
        ≡ some (err e_busy, prepare_area now.alloc.pid area, now)
  later_mapping tsk k area later s h w =
      let now = after_attempts balance tsk later s in
      allowed tsk k area now w
      ∙ ap (with_area (prepare_area now.alloc.pid area)) (
          (binder_alloc_mmap_handler_err balance keeps k area.vma now).0
            (attempts_keep tsk later s h))

  -- A process that was just opened and maps an area by itself, with memory for the pages and the
  -- buffer: a writable area is refused with no permission, any other is mapped, one free buffer having
  -- all of it up to 4 megabytes, and can never be made writable. Once it was mapped,
  -- whatever mappings are tried and areas closed after that, a mapping of an area that is not writable
  -- is refused as busy and changes nothing. A task of another group may not map.
  pub binder_mmap-binder_open :
      (refcount_inc : ℕ → ℕ) (counts_up : (n : ℕ) → 0 < n → n < 2 ^ 31 - 1 → refcount_inc n ≡ n + 1)
      (u : Uapi) (base : ℕ → ℕ) (device : ℕ) (o : Opener) (d d' : Driver) (p : OpenProc)
      (again : Bool) (k k' : MapAnswers) (area area' : Area) (s : MapState) (pages at other : ℕ)
      (later : List Attempt)
      → Counted base d
      → 0 < base device
      → d.device_ref device < 2 ^ 31 - 1
      → binder_open refcount_inc u device o d ≡ opened p again d'
      → s.alloc ≡ p.alloc
      → area.vm_write ≡ false
      → area'.vm_write ≡ false
      → area.vma.vm_start < area.vma.vm_end
      → area.vma.vm_end < 2 ^ 64
      → k.kcalloc ≡ some pages
      → k.kzalloc ≡ some at
      → other ≢ o.leader
      → (s' : MapState) × (binder_mmap balance p.leader o.leader k area s
          ≡ some (zero_ret, prepare_area o.leader area, s'))
        × ReadOnly o.leader (prepare_area o.leader area)
        × Mapped area.vma s'.alloc
        × (let now = after_attempts balance p.leader later s' in
            binder_mmap balance p.leader o.leader k' area' now
            ≡ some (err e_busy, prepare_area now.alloc.pid area', now))
        × (binder_mmap balance p.leader o.leader k (record area { vm_write = true }) s
            ≡ some (err e_perm, record area { vm_write = true }, s))
        × (binder_mmap balance p.leader other k area s ≡ some (err e_inval, area, s))
  unfolding binder_mmap
  binder_mmap-binder_open refcount_inc counts_up u base device o d d' p again k k' area area' s
        pages at other later counted made room opens same w w' up top has_pages has_struct ne =
      let law =
        subst (OpenLaw u base device o d) opens
          (binder_open-Counted refcount_inc counts_up u base device o d counted made room) in
      let new = law.1 in
      let un : Unmapped s.alloc = subst Unmapped (sym same) new.unmapped in
      let pid_is : s.alloc.pid ≡ o.leader = ap (λ a. a.pid) same ∙ new.pid_is.1 in
      let (s', is_mapped, mapped) =
        first_mapping o.leader k area s pages at un w up top has_pages has_struct in
      rw new.leader_is (
        s',
        is_mapped ∙ ap (λ pid. some (zero_ret, prepare_area pid area, s')) pid_is,
        prepare_area-ReadOnly o.leader area w,
        mapped,
        later_mapping o.leader k' area' later s' (Mapped-ne area.vma s'.alloc mapped up) w',
        if_true (o.leader == o.leader) _ _ (eq→== o.leader o.leader refl),
        if_false (o.leader == other) _ _ (ne→== o.leader other (λ q. ne (sym q))),
      )
